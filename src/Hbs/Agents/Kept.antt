-- ===== src/Hbs/Agents/Kept.antt =====
-- What holds of the agents at all times: they stand under their names, and the database was told.
use ref_falcon.Prelude.{
  ◌≡◌, refl, sym, ◌∙◌, subst, Bool, true, false, not, ◌||◌, List, [], ◌∷◌, Option, none, some,
  if◌then◌else◌, Bool-cases, inl, inr,
}
use ref_falcon.Prelude.Int.{ℤ}
use ref_falcon.Prelude.Text.{
  String, str_eq, eq_iff, eq_refl, lookup, insert, delete, lookup-insert, lookup-delete,
}
use ref_falcon.Hbs.Agents.{
  AgentReportRequest, AgentUpdateInfo, AgentMap, SafeAgents, is_changed, get, put, delete_agent,
}

-- Each entry stands under the name of its host, and no name stands twice.
abbrev pub WellKept : AgentMap → Type 0
WellKept [] = Unit {0}
WellKept ((key, v) ∷ m) = (v.report_request.hostname ≡ key) × (lookup key m ≡ none) × WellKept m

-- What the database was told last of a host.
unfoldable pub latest : String → List AgentReportRequest → Option AgentReportRequest
latest key [] = none
latest key (r ∷ rows) = let rest = latest key rows in if str_eq r.hostname key then some r else rest

abbrev pub SameAgent : AgentReportRequest → AgentReportRequest → Type 0
SameAgent a b =
    (a.ip ≡ b.ip) × (a.agent_version ≡ b.agent_version) × (a.plugin_version ≡ b.plugin_version)

-- What stands in memory, the database was told too.
abbrev pub Recorded : SafeAgents → Type 0
Recorded st =
    (k : String) (v : AgentUpdateInfo)
    → lookup k st.m ≡ some v
    → (r : AgentReportRequest) × (latest k st.update_agent ≡ some r) × SameAgent v.report_request r

abbrev pub Kept : SafeAgents → Type 0
Kept st = WellKept st.m × Recorded st

flip : (a b : String) → str_eq a b ≡ false → str_eq b a ≡ false
flip a b h = elim (Bool-cases (str_eq b a)) [
  | inl same ↦ absurd (apart (subst (λ x. str_eq x b ≡ true) ((eq_iff b a).0 same) (eq_refl b)))
  | inr other ↦ other
]
  where
    apart : str_eq a b ≡ true → ⊥
    apart t = cc

insert-WellKept :
    (v : AgentUpdateInfo) (m : AgentMap)
    → WellKept m
    → WellKept (insert v.report_request.hostname v m)
unfolding insert lookup
insert-WellKept v [] kept = (refl, refl, tt)
insert-WellKept v ((key, u) ∷ m) (named, once, kept) =
    let host = v.report_request.hostname in
    let entry = (key, u) ∷ insert host v m in
    elim (Bool-cases (str_eq key host)) [
      | inl same ↦
          subst (λ b. WellKept (if b then (host, v) ∷ m else entry)) (sym same)
            (refl, subst (λ x. lookup x m ≡ none) ((eq_iff key host).0 same) once, kept)
      | inr other ↦
          subst (λ b. WellKept (if b then (host, v) ∷ m else entry)) (sym other)
            (
              named,
              rw (lookup-insert host key v m, flip key host other) once,
              insert-WellKept v m kept,
            )
    ]

delete-WellKept : (gone : String) (m : AgentMap) → WellKept m → WellKept (delete gone m)
unfolding delete
delete-WellKept gone [] kept = tt
delete-WellKept gone ((key, u) ∷ m) (named, once, kept) =
    let rest = delete gone m in
    elim (Bool-cases (str_eq key gone)) [
      | inl same ↦
          subst (λ b. WellKept (if b then rest else (key, u) ∷ rest)) (sym same)
            (delete-WellKept gone m kept)
      | inr other ↦
          subst (λ b. WellKept (if b then rest else (key, u) ∷ rest)) (sym other)
            (
              named,
              rw (lookup-delete gone key m, flip key gone other) once,
              delete-WellKept gone m kept,
            )
    ]

none_here : {A : Type 0} (a : A) → none ≡ some a → ⊥
none_here a h = cc

pub delete-Kept : (gone : String) (st : SafeAgents) → Kept st → Kept (delete_agent gone st)
unfolding delete_agent
delete-Kept gone st (kept, told) = (
  delete-WellKept gone st.m kept,
  λ k v h. elim (Bool-cases (str_eq gone k)) [
    | inl same ↦ absurd (none_here v (sym (lookup-delete gone k st.m ∙ rw same) ∙ h))
    | inr other ↦ told k v (sym (lookup-delete gone k st.m ∙ rw other) ∙ h)
  ],
)

-- A request that changes nothing that is in memory.
unchanged :
    (o : Option AgentUpdateInfo) (req : AgentReportRequest)
    → is_changed o req ≡ false
    → (v : AgentUpdateInfo) × (o ≡ some v) × SameAgent v.report_request req
unchanged none req h = cc
unchanged (some v) req h =
    let old = v.report_request in
    let (version, ip, plugin) =
      all_same (str_eq old.agent_version req.agent_version) (str_eq old.ip req.ip)
        (str_eq old.plugin_version req.plugin_version) h in
    (
      v,
      refl,
      (
        (eq_iff old.ip req.ip).0 ip,
        (eq_iff old.agent_version req.agent_version).0 version,
        (eq_iff old.plugin_version req.plugin_version).0 plugin,
      ),
    )
  where
    all_same :
        (a b c : Bool) → (not a || not b || not c) ≡ false → (a ≡ true) × (b ≡ true) × (c ≡ true)
    all_same true true true h = (refl, refl, refl)
    all_same true true false h = cc
    all_same true false c h = cc
    all_same false b c h = cc

abbrev Told : String → AgentReportRequest → List AgentReportRequest → Type 0
Told k req rows = (r : AgentReportRequest) × (latest k rows ≡ some r) × SameAgent req r

-- The rows after a request, by whether it changes something.
self-Told :
    (req : AgentReportRequest) (st : SafeAgents) (changed : Bool)
    → is_changed (lookup req.hostname st.m) req ≡ changed
    → Recorded st
    → Told req.hostname req (if changed then req ∷ st.update_agent else st.update_agent)
unfolding latest
self-Told req st true h told = (req, rw (eq_refl req.hostname), (refl, refl, refl))
self-Told req st false h told =
    let (u, there, same) = unchanged (lookup req.hostname st.m) req h in
    let (r, last, like) = told req.hostname u there in
    (r, last, (sym same.0 ∙ like.0, sym same.1 ∙ like.1, sym same.2 ∙ like.2))

other-Told :
    (req old : AgentReportRequest) (k : String) (rows : List AgentReportRequest) (changed : Bool)
    → str_eq req.hostname k ≡ false
    → Told k old rows
    → Told k old (if changed then req ∷ rows else rows)
unfolding latest
other-Told req old k rows true other (r, last, like) = (r, rw other last, like)
other-Told req old k rows false other t = t

pub put-Kept :
    (now : ℤ) (req : AgentReportRequest) (st : SafeAgents) → Kept st → Kept (put now req st)
unfolding put ref_falcon.Hbs.Agents.get
put-Kept now req st (kept, told) =
    let changed = is_changed (lookup req.hostname st.m) req in
    let new : AgentUpdateInfo = record { last_update = now; report_request = req } in
    let rows = if changed then req ∷ st.update_agent else st.update_agent in
    (
      insert-WellKept new st.m kept,
      λ k v h. elim (Bool-cases (str_eq req.hostname k)) [
        | inl same ↦
            let is_new : new ≡ v =
              one (sym (lookup-insert req.hostname k new st.m ∙ rw same) ∙ h) in
            subst (λ x. Told x v.report_request rows) ((eq_iff req.hostname k).0 same)
              (subst (λ x. Told req.hostname x.report_request rows) is_new
                (self-Told req st changed refl told))
        | inr other ↦
            other-Told req v.report_request k st.update_agent changed other
              (told k v (sym (lookup-insert req.hostname k new st.m ∙ rw other) ∙ h))
      ],
    )
  where
    one : {A : Type 0} {a b : A} → some a ≡ some b → a ≡ b
    one h = cc
