-- ===== src/Judge/Store/Send.antt =====
-- `Send`: it returns, the windows stay well-formed, and so do the last events.
use ref_falcon.Prelude.{
  ℕ, suc, ◌≡◌, refl, sym, subst, ◌∙◌, ◌⊎◌, inl, inr, true, false, List, [], ◌∷◌, take, Option, none,
  some, arith, ok, Returns, Returns-bind, ◌>>=◌, Bool-cases, Option-cases,
}
use ref_falcon.Prelude.Int.{ℤ, pos}
use ref_falcon.Prelude.Text.{String, str_eq, lookup, insert, lookup-insert, eq_refl}
use ref_falcon.Float64.{Float64}
use ref_falcon.Judge.Types.{JudgeItem, Strategy, Expression}
use ref_falcon.Judge.Func.{Stats}
use ref_falcon.Judge.Func.Total.{Typed}
use ref_falcon.Judge.Alarm.{Env, Alarms}
use ref_falcon.Judge.Alarm.Capped.{Remembered, Sound}
use ref_falcon.Judge.Window.Push.{
  IsWindow, push_front_and_maintain_lem, push_front_and_maintain-IsWindow,
}
use ref_falcon.Judge.Rules.{judge}
use ref_falcon.Judge.Rules.Safe.{Each, AllStrategies, AllExpressions, judge-Sound}
use ref_falcon.Judge.Store.{
  ItemMap, Memory, first_two, exists, push_item, receive, send, prefixes, init_maps,
  init_history_big_map,
}

abbrev pub Among : {A : Type 0} → A → List A → Type 0
Among p [] = ⊥
Among p (q ∷ qs) = (p ≡ q) ⊎ Among p qs

Each-Among : (P : String → Type 0) (p : String) (qs : List String) → Each P qs → Among p qs → P p
Each-Among P p [] h a = absurd a
Each-Among P p (q ∷ qs) h (inl e) = subst P (sym e) h.0
Each-Among P p (q ∷ qs) h (inr a) = Each-Among P p qs h.1 a

Each-map :
    (P Q : String → Type 0) (qs : List String) → ((p : String) → P p → Q p) → Each P qs → Each Q qs
Each-map P Q [] f h = tt
Each-map P Q (q ∷ qs) f h = (f q h.0, Each-map P Q qs f h.1)

pub lookup-insert-some {ℓ} :
    {A : Type ℓ} (k p : String) (a : A) (m : List (String × A))
    → (b : A) × (lookup p m ≡ some b)
    → (b : A) × (lookup p (insert k a m) ≡ some b)
lookup-insert-some k p a m (b, e) = elim (Bool-cases (str_eq k p)) [
  | inl same ↦ (a, lookup-insert k p a m ∙ rw same)
  | inr other ↦ (b, lookup-insert k p a m ∙ rw other e)
]

module _ {V : Type 0} where
  -- What is kept under a key: a window whose newest item has a counter type.
  abbrev pub Kept : ℕ → Option (List (JudgeItem V)) → Type 0
  Kept n none = Unit {0}
  Kept n (some l) = IsWindow n l × Typed l

  abbrev pub AllKept : ℕ → ItemMap V → Type 0
  AllKept n m = (k : String) → Kept n (lookup k m)

  abbrev pub MapKept : ℕ → Option (ItemMap V) → Type 0
  MapKept n none = Unit {0}
  MapKept n (some m) = AllKept n m

  abbrev pub BigKept : ℕ → List (String × ItemMap V) → Type 0
  BigKept n big = (p : String) → MapKept n (lookup p big)

  -- Each of the 256 maps is there.
  abbrev pub Ready : List (String × ItemMap V) → Type 0
  Ready big = Each (λ p. (m : ItemMap V) × (lookup p big ≡ some m)) prefixes

  AllKept-insert :
      (n : ℕ) (key : String) (l : List (JudgeItem V)) (m : ItemMap V)
      → Kept n (some l)
      → AllKept n m
      → AllKept n (insert key l m)
  AllKept-insert n key l m new old k =
      subst (Kept n) (sym (lookup-insert key k l m))
        (elim (Bool-cases (str_eq key k)) [ inl same ↦ rw same new | inr other ↦ rw other (old k) ])

  BigKept-insert :
      (n : ℕ) (p : String) (m : ItemMap V) (big : List (String × ItemMap V))
      → AllKept n m
      → BigKept n big
      → BigKept n (insert p m big)
  BigKept-insert n p m big new old k =
      subst (MapKept n) (sym (lookup-insert p k m big))
        (elim (Bool-cases (str_eq p k)) [ inl same ↦ rw same new | inr other ↦ rw other (old k) ])

  module _ ⦃fl : Float64 V⦄ ⦃st : Stats V⦄ (env : Env V) (cap : String → ℤ)
      (sm : List (String × List (Strategy V))) (em : List (String × List (Expression V)))
      (n : ℕ) where
    -- An item with a counter type and a key that begins with two hex digits, on which every rule is
    -- good.
    pub record GoodItem (item : JudgeItem V) : Type 0 where
      pub typed : Typed (item ∷ [])
      pub strategies : AllStrategies env cap (item ∷ []) item (pos 0) sm
      pub expressions : AllExpressions env cap (item ∷ []) item (pos 0) em
      pub prefix : String
      pub begins : first_two (env.primary_key item) ≡ some prefix
      pub hex : Among prefix prefixes

    abbrev Pushed : ItemMap V × Alarms V → Type 0
    Pushed r = AllKept (suc n) r.0 × Sound env cap r.1

    judged-Pushed :
        (key : String) (l : List (JudgeItem V)) (item : JudgeItem V) (now : ℤ) (m : ItemMap V)
        (alarms : Alarms V)
        → GoodItem item
        → Kept (suc n) (some l)
        → AllKept (suc n) m
        → Sound env cap alarms
        → Returns Pushed (judge env sm em l item now alarms >>= λ a. ok (insert key l m, a))
    judged-Pushed key l item now m alarms good kept all sound =
        Returns-bind (Sound env cap) Pushed (judge env sm em l item now alarms) _
          (judge-Sound env cap l item now sm em alarms kept.1 good.strategies good.expressions
            sound)
          (λ a s. (AllKept-insert (suc n) key l m kept all, s))

    one-Kept : (item : JudgeItem V) → GoodItem item → Kept (suc n) (some (item ∷ []))
    one-Kept item good = (record { descending = (tt, tt); bounded = omega arith }, good.typed)

    push_item-Pushed :
        (key : String) (item : JudgeItem V) (now : ℤ) (m : ItemMap V) (alarms : Alarms V)
        → GoodItem item
        → AllKept (suc n) m
        → Sound env cap alarms
        → Returns Pushed (push_item env sm em key item (pos (suc n)) now m alarms)
    unfolding push_item
    push_item-Pushed key item now m alarms good all sound = elim (Option-cases (lookup key m)) [
      | inl absent ↦
          rw (absent, push_item)
            (judged-Pushed key (item ∷ []) item now m alarms good (one-Kept item good) all sound)
      | inr (l, found) ↦
          let kept : Kept (suc n) (some l) = subst (Kept (suc n)) found (all key) in
          let window = push_front_and_maintain-IsWindow l item (suc n) kept.0 in
          elim (push_front_and_maintain_lem l item (suc n)) [
            | inl (a, e) ↦
                rw (found, push_item, e)
                  (judged-Pushed key (item ∷ take n l) item now m alarms good
                    (subst (Returns (λ r. IsWindow (suc n) r.1)) e window, good.typed) all sound)
            | inr (r, e) ↦ rw (found, push_item, e) (AllKept-insert (suc n) key l m kept all, sound)
          ]
    ]

    -- The state that `Send` keeps well-formed.
    pub record Healthy (mem : Memory V) : Type 0 where
      pub ready : Ready mem.big
      pub kept : BigKept (suc n) mem.big
      pub sound : Sound env cap mem.alarms

    receive-Healthy :
        (item : JudgeItem V) (now : ℤ) (mem : Memory V)
        → GoodItem item
        → Healthy mem
        → Returns Healthy (receive env sm em item (pos (suc n)) now mem)
    unfolding receive
    receive-Healthy item now mem good h =
        let p = good.prefix in
        let (m, found) =
          Each-Among (λ q. (m : ItemMap V) × (lookup q mem.big ≡ some m)) p prefixes h.ready
            good.hex in
        rw (good.begins, found)
          (Returns-bind Pushed Healthy
            (push_item env sm em (env.primary_key item) item (pos (suc n)) now m mem.alarms) _
            (push_item-Pushed (env.primary_key item) item now m mem.alarms good
              (subst (MapKept (suc n)) found (h.kept p)) h.sound)
            (λ (m', alarms') pushed. record {
              ready = Each-map _ _ prefixes (λ q e. lookup-insert-some p q m' mem.big e) h.ready;
              kept = BigKept-insert (suc n) p m' mem.big pushed.0 h.kept;
              sound = pushed.1;
            }))

    -- With a number of at least 1 of points to remain, rules that are good on every item, and items with a counter type and a key that begins
    -- with two hex digits, `Send` returns: every window stays falling in time and within the
    -- number of points that are to remain, and the last events stay sound.
    pub send-Healthy :
        (filter : List (String × String)) (items : List (JudgeItem V)) (now : ℤ) (mem : Memory V)
        → Each GoodItem items
        → Healthy mem
        → Returns Healthy (send env sm em filter items (pos (suc n)) now mem)
    unfolding send
    send-Healthy filter [] now mem good h = h
    send-Healthy filter (item ∷ items) now mem good h =
        Returns-bind Healthy Healthy _ _
          (elim (Bool-cases (exists item.metric filter)) [
            | inl wanted ↦ rw wanted (receive-Healthy item now mem good.0 h)
            | inr other ↦ rw other h
          ])
          (λ mem' h'. send-Healthy filter items now mem' good.1 h')

    init_maps-Each :
        (P : String → Type 0) (ps qs : List String)
        → ((p : String) → Among p qs → P p)
        → ((p : String) → Among p ps → Among p qs)
        → Each P ps
    init_maps-Each P [] qs f g = tt
    init_maps-Each P (p ∷ ps) qs f g =
        (f p (g p (inl refl)), init_maps-Each P ps qs f (λ q a. g q (inr a)))

    lookup-init_maps :
        (p : String) (ps : List String)
        → Among p ps
        → (m : ItemMap V) × (lookup p (init_maps ps) ≡ some m)
    unfolding init_maps lookup
    lookup-init_maps p [] a = absurd a
    lookup-init_maps p (q ∷ ps) a = elim (Bool-cases (str_eq q p)) [
      | inl same ↦ ([], rw same)
      | inr other ↦ elim a [
        | inl e ↦ absurd (differ (sym (subst (λ x. str_eq x p ≡ true) e (eq_refl p)) ∙ other))
        | inr later ↦ (let (m, e) = lookup-init_maps p ps later in (m, rw other e))
      ]
    ]
      where
        differ : true ≡ false → ⊥
        differ e = cc

    init_maps-Kept : (ps : List String) → BigKept (suc n) (init_maps ps)
    unfolding init_maps lookup
    init_maps-Kept [] p = tt
    init_maps-Kept (q ∷ ps) p = elim (Bool-cases (str_eq q p)) [
      | inl same ↦ rw (same, lookup) (λ k. tt)
      | inr other ↦ rw (other, lookup) (init_maps-Kept ps p)
    ]

    empty : (k : String) → Remembered env (cap k) (lookup k [])
    unfolding lookup
    empty k = tt

    -- The maps that InitHistoryBigMap makes, with no last event, are a state to begin with.
    pub init_history_big_map-Healthy :
        Healthy
          (record { big = init_history_big_map; alarms = record { last_events = []; pushed = [] } })
    unfolding init_history_big_map
    init_history_big_map-Healthy = record {
      ready = init_maps-Each _ prefixes prefixes (λ p a. lookup-init_maps p prefixes a) (λ p a. a);
      kept = init_maps-Kept prefixes;
      sound = λ k. empty k;
    }
