-- ===== src/Hbs/Agents/Stale.antt =====
-- The agents that deleteStaleAgents takes away, and that the map stays as it relies on.
use ref_falcon.Prelude.{
  ◌≡◌, refl, sym, ◌∙◌, subst, [], ◌∷◌, map, Option, none, some, if◌then◌else◌, must, ◌>>=◌, Returns,
  Returns-map, Bool-cases, inl, inr,
}
use ref_falcon.Prelude.Int.{ℤ, pos, ltb_ℤ, sub64}
use ref_falcon.Prelude.Text.{String, str_eq, eq_iff, eq_refl, lookup, lookup-delete}
use ref_falcon.Hbs.Agents.Kept.{WellKept, Kept, delete-Kept}
use ref_falcon.Hbs.Agents.{
  AgentUpdateInfo, AgentMap, SafeAgents, delete_agent, agent_keys, delete_loop, delete_stale_agents,
}

-- What is left under a name.
abbrev pub fresh : ℤ → Option AgentUpdateInfo → Option AgentUpdateInfo
fresh before none = none
fresh before (some v) = if ltb_ℤ v.last_update before then none else some v

-- Those entries that are still to be looked at are judged, and the others stay.
abbrev judged : ℤ → Option AgentUpdateInfo → Option AgentUpdateInfo → Option AgentUpdateInfo
judged before none now = now
judged before (some v) now = fresh before (some v)

abbrev Contains : AgentMap → AgentMap → Type 0
Contains entries m =
    (k : String) (v : AgentUpdateInfo) → lookup k entries ≡ some v → lookup k m ≡ some v

-- The map after one key.
abbrev after_key : ℤ → AgentUpdateInfo → SafeAgents → SafeAgents
after_key before curr st =
    if ltb_ℤ curr.last_update before then delete_agent curr.report_request.hostname st else st

after_key_lem :
    (before : ℤ) (key k : String) (v : AgentUpdateInfo) (st : SafeAgents)
    → v.report_request.hostname ≡ key
    → lookup key st.m ≡ some v
    → lookup k (after_key before v st).m
      ≡ (if str_eq key k then fresh before (some v) else lookup k st.m)
unfolding delete_agent
after_key_lem before key k v st named there = elim (Bool-cases (ltb_ℤ v.last_update before)) [
  | inl old ↦ rw (old, named, lookup-delete key k st.m)
  | inr young ↦ elim (Bool-cases (str_eq key k)) [
    | inl same ↦
        let here : lookup k st.m ≡ some v =
          subst (λ x. lookup x st.m ≡ some v) ((eq_iff key k).0 same) there in
        rw (young, same, here)
    | inr other ↦ rw (young, other)
  ]
]

rest_entries :
    (before : ℤ) (key : String) (v : AgentUpdateInfo) (entries : AgentMap) (st st1 : SafeAgents)
    → lookup key entries ≡ none
    → Contains ((key, v) ∷ entries) st.m
    → ((k : String)
        → lookup k st1.m ≡ (if str_eq key k then fresh before (some v) else lookup k st.m))
    → Contains entries st1.m
unfolding lookup
rest_entries before key v entries st st1 once has after k u h = elim (Bool-cases (str_eq key k)) [
  | inl same ↦
      absurd (missing (subst (λ x. lookup x entries ≡ none) ((eq_iff key k).0 same) once) h)
  | inr other ↦
      let there : lookup k st.m ≡ some u = has k u (rw other h) in after k ∙ rw other there
]
  where
    missing : lookup k entries ≡ none → lookup k entries ≡ some u → ⊥
    missing a b = cc

-- What the rest of the loop says, with the key that came first.
joined :
    (before : ℤ) (key k : String) (v : AgentUpdateInfo) (entries : AgentMap) (st st1 : SafeAgents)
    → lookup key entries ≡ none
    → lookup k st1.m ≡ (if str_eq key k then fresh before (some v) else lookup k st.m)
    → judged before (lookup k entries) (lookup k st1.m)
      ≡ judged before (if str_eq key k then some v else lookup k entries) (lookup k st.m)
joined before key k v entries st st1 once after = elim (Bool-cases (str_eq key k)) [
  | inl same ↦
      let gone : lookup k entries ≡ none =
        subst (λ x. lookup x entries ≡ none) ((eq_iff key k).0 same) once in
      rw (gone, after, same)
  | inr other ↦ rw (after, other)
]

after_key-Kept :
    (before : ℤ) (v : AgentUpdateInfo) (st : SafeAgents) → Kept st → Kept (after_key before v st)
after_key-Kept before v st kept = elim (Bool-cases (ltb_ℤ v.last_update before)) [
  | inl old ↦ rw old (delete-Kept v.report_request.hostname st kept)
  | inr young ↦ rw young kept
]

delete_loop_lem :
    (before : ℤ) (entries : AgentMap) (st : SafeAgents)
    → WellKept entries
    → Contains entries st.m
    → Kept st
    → Returns
        (λ st'.
          ((k : String) → lookup k st'.m ≡ judged before (lookup k entries) (lookup k st.m))
          × Kept st')
        (delete_loop before (map (λ e. e.0) entries) st)
unfolding delete_loop lookup ref_falcon.Hbs.Agents.get
delete_loop_lem before [] st kept has all = (λ k. refl, all)
delete_loop_lem before ((key, v) ∷ entries) st (named, once, kept) has all =
    let there : lookup key st.m ≡ some v = has key v (rw (eq_refl key)) in
    let st1 = after_key before v st in
    let after : (k : String)
        → lookup k st1.m ≡ (if str_eq key k then fresh before (some v) else lookup k st.m) =
      λ k. after_key_lem before key k v st named there in
    subst
      (λ o.
        Returns
          (λ st'.
            ((k : String)
              → lookup k st'.m
                ≡ judged before (if str_eq key k then some v else lookup k entries) (lookup k st.m))
            × Kept st')
          (must o >>= λ curr.
            delete_loop before (map (λ e. e.0) entries) (after_key before curr st)))
      (sym there)
      (Returns-map
        (λ st'.
          ((k : String) → lookup k st'.m ≡ judged before (lookup k entries) (lookup k st1.m))
          × Kept st')
        _ (delete_loop before (map (λ e. e.0) entries) st1)
        (λ st' h. (λ k. h.0 k ∙ joined before key k v entries st st1 once (after k), h.1))
        (delete_loop_lem before entries st1 kept
          (rest_entries before key v entries st st1 once has after)
          (after_key-Kept before v st all)))

whole : (before : ℤ) (o : Option AgentUpdateInfo) → judged before o o ≡ fresh before o
whole before none = refl
whole before (some v) = refl

-- When the agents stand under their names and the database was told of them, deleteStaleAgents
-- returns and keeps that so; the agents that it takes away are exactly those that reported last
-- more than a day before now.
pub delete_stale_agents_lem :
    (now : ℤ) (st : SafeAgents)
    → Kept st
    → Returns
        (λ st'.
          ((k : String) → lookup k st'.m ≡ fresh (sub64 now (pos 86400)) (lookup k st.m))
          × Kept st')
        (delete_stale_agents now st)
unfolding delete_stale_agents agent_keys
delete_stale_agents_lem now st all =
    let before = sub64 now (pos 86400) in
    Returns-map
      (λ st'.
        ((k : String) → lookup k st'.m ≡ judged before (lookup k st.m) (lookup k st.m)) × Kept st')
      _ (delete_loop before (map (λ e. e.0) st.m) st)
      (λ st' h. (λ k. h.0 k ∙ whole before (lookup k st.m), h.1))
      (delete_loop_lem before st.m st all.0 (λ k v h. h) all)
