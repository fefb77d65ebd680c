-- ===== src/Alarm/Combine/Waiting.antt =====
-- Which dtos popAllSmsDto gives: those whose texts wait in the queue.
use mathlib.Core.List.{reverse, reverse_aux}
use ref_falcon.Prelude.{
  ◌≡◌, refl, sym, ap, ◌∙◌, subst, ◌||◌, ◌⊎◌, inl, inr, Bool, true, false, List, [], ◌∷◌, ◌++◌,
  Option, none, some, if◌then◌else◌, Bool-cases, Option-cases,
}
use ref_falcon.Prelude.Text.{String, str_eq}
use ref_falcon.Judge.Store.Send.{Among}
use ref_falcon.Graph.Flush.Flushable.{Among-append, Among-last}
use ref_falcon.Alarm.Messages.{Dto}
use ref_falcon.Alarm.Combine.{Links, keep_dto, pop_all_dto}

Among-reverse_aux : {A : Type 0} (x : A) (xs r : List A) → Among x r → Among x (reverse_aux xs r)
Among-reverse_aux x [] r a = a
Among-reverse_aux x (y ∷ xs) r a = Among-reverse_aux x xs (y ∷ r) (inr a)

pub Among-reverse : {A : Type 0} (x : A) (xs r : List A) → Among x xs → Among x (reverse_aux xs r)
Among-reverse x [] r a = absurd a
Among-reverse x (y ∷ xs) r (inl p) = Among-reverse_aux x xs (y ∷ r) (inl p)
Among-reverse x (y ∷ xs) r (inr a) = Among-reverse x xs (y ∷ r) a

module _ (l : Links) where
  keep_more :
      (skip : Bool) (p : Option Dto) (ret : List Dto) (d : Dto)
      → Among d ret
      → Among d (if skip then ret else keep_dto p ret)
  keep_more true p ret d a = a
  keep_more false none ret d a = a
  keep_more false (some x) ret d a = Among-append d ret (x ∷ []) a

  pop_all_dto_more :
      (replies : List String) (ret : List Dto) (d : Dto)
      → Among d ret
      → Among d (pop_all_dto l replies ret)
  unfolding pop_all_dto
  pop_all_dto_more [] ret d a = a
  pop_all_dto_more (r ∷ replies) ret d a =
      pop_all_dto_more replies _ d (keep_more (str_eq r "" || str_eq r "nil") (l.parse r) ret d a)

  pub pop_all_dto_all :
      (replies : List String) (ret : List Dto) (text : String) (d : Dto)
      → (str_eq text "" || str_eq text "nil") ≡ false
      → l.parse text ≡ some d
      → Among text replies
      → Among d (pop_all_dto l replies ret)
  unfolding pop_all_dto
  pop_all_dto_all [] ret text d n p a = absurd a
  pop_all_dto_all (r ∷ replies) ret text d n p (inl same) =
      let kept : Among d
          (if str_eq text "" || str_eq text "nil" then ret else keep_dto (l.parse text) ret) =
        rw (n, p) (Among-last d ret) in
      pop_all_dto_more replies _ d (
        subst
          (λ t. Among d (if str_eq t "" || str_eq t "nil" then ret else keep_dto (l.parse t) ret))
          same kept)
  pop_all_dto_all (r ∷ replies) ret text d n p (inr a) = pop_all_dto_all replies _ text d n p a

-- A dto waits if its text is in the queue; "" and "nil" are passed over.
pub record Waits (l : Links) (queue : List String) (d : Dto) : Type 0 where
  pub reply : String
  pub queued : Among reply queue
  pub some_text : (str_eq reply "" || str_eq reply "nil") ≡ false
  pub parsed : l.parse reply ≡ some d

Among-snoc : {A : Type 0} (x y : A) (xs : List A) → Among x (xs ++ y ∷ []) → Among x xs ⊎ (y ≡ x)
Among-snoc x y [] (inl p) = inr (sym p)
Among-snoc x y [] (inr a) = absurd a
Among-snoc x y (z ∷ xs) (inl p) = inl (inl p)
Among-snoc x y (z ∷ xs) (inr a) = elim (Among-snoc x y xs a) [ inl b ↦ inl (inr b) | inr e ↦ inr e ]

later : {A : Type 0} (x : A) (xs r : List A) → Among x (reverse_aux xs r) → Among x xs ⊎ Among x r
later x [] r a = inr a
later x (y ∷ xs) r a = elim (later x xs (y ∷ r) a) [
  | inl b ↦ inl (inr b)
  | inr (inl p) ↦ inl (inl p)
  | inr (inr b) ↦ inr b
]

Among-turned : {A : Type 0} (x : A) (xs : List A) → Among x (reverse xs) → Among x xs
Among-turned x xs a = elim (later x xs [] a) [ inl b ↦ b | inr b ↦ absurd b ]

module _ (l : Links) where
  kept-Waits :
      (r : String) (replies : List String) (ret : List Dto) (d : Dto)
      → Among d (if str_eq r "" || str_eq r "nil" then ret else keep_dto (l.parse r) ret)
      → Among d ret ⊎ Waits l (r ∷ replies) d
  kept-Waits r replies ret d a = elim (Bool-cases (str_eq r "" || str_eq r "nil")) [
    | inl skip ↦ inl (subst (λ b. Among d (if b then ret else keep_dto (l.parse r) ret)) skip a)
    | inr text ↦
        let kept = subst (λ b. Among d (if b then ret else keep_dto (l.parse r) ret)) text a in
        elim (Option-cases (l.parse r)) [
          | inl bad ↦ inl (subst (λ o. Among d (keep_dto o ret)) bad kept)
          | inr (e, parsed) ↦
              elim (Among-snoc d e ret (subst (λ o. Among d (keep_dto o ret)) parsed kept)) [
                | inl b ↦ inl b
                | inr same ↦ inr (record {
                  reply = r;
                  queued = inl refl;
                  some_text = text;
                  parsed = parsed ∙ ap some same;
                })
              ]
        ]
  ]

  popped-Waits :
      (replies : List String) (ret : List Dto) (d : Dto)
      → Among d (pop_all_dto l replies ret)
      → Among d ret ⊎ Waits l replies d
  unfolding pop_all_dto
  popped-Waits [] ret d a = inl a
  popped-Waits (r ∷ replies) ret d a = elim (popped-Waits replies _ d a) [
    | inl kept ↦ kept-Waits r replies ret d kept
    | inr w ↦ inr (record {
      reply = w.reply;
      queued = inr w.queued;
      some_text = w.some_text;
      parsed = w.parsed;
    })
  ]

  -- From the right end of a queue on, exactly those that wait there are popped.
  pub Waits-popped :
      (queue : List String) (d : Dto) → Waits l queue d → Among d (pop_all_dto l (reverse queue) [])
  Waits-popped queue d w =
      pop_all_dto_all l (reverse queue) [] w.reply d w.some_text w.parsed
        (Among-reverse w.reply queue [] w.queued)

  pub popped-Waiting :
      (queue : List String) (d : Dto) → Among d (pop_all_dto l (reverse queue) []) → Waits l queue d
  popped-Waiting queue d a = elim (popped-Waits (reverse queue) [] d a) [
    | inl b ↦ absurd b
    | inr w ↦ record {
      reply = w.reply;
      queued = Among-turned w.reply queue w.queued;
      some_text = w.some_text;
      parsed = w.parsed;
    }
  ]
