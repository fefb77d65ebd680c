-- ===== src/Alarm/Combine/Delivered.antt =====
-- Every dto that waits goes out in a message to its receiver.
use mathlib.Core.List.{reverse}
use ref_falcon.Prelude.{
  ◌≡◌, refl, sym, ap, ◌∙◌, subst, inl, inr, true, List, [], ◌∷◌, some, Bool-cases, Option-cases,
  if◌then◌else◌,
}
use ref_falcon.Prelude.Text.{String, str_eq, eq_iff, eq_refl, lookup}
use ref_falcon.Judge.Store.Send.{Among}
use ref_falcon.Judge.Sync.{append_at}
use ref_falcon.Judge.Sync.Maps.{all_of, under, add_pairs, rebuilt_lem}
use ref_falcon.Alarm.Messages.{Dto, Message, Queues, write_sms}
use ref_falcon.Alarm.Combine.Waiting.{Waits, Waits-popped, popped-Waiting}
use ref_falcon.Alarm.Combine.{Links, pop_all_dto, dto_key, dto_map, text_of, send_sms, combine_sms}

abbrev keyed : List Dto → List (String × Dto)
keyed [] = []
keyed (d ∷ dtos) = (dto_key d, d) ∷ keyed dtos

dto_map-pairs :
    (dtos : List Dto) (m : List (String × List Dto)) → dto_map dtos m ≡ add_pairs (keyed dtos) m
unfolding dto_map add_pairs
dto_map-pairs [] m = refl
dto_map-pairs (d ∷ dtos) m = dto_map-pairs dtos (append_at (dto_key d) d m)

under-Among : (d : Dto) (dtos : List Dto) → Among d dtos → Among d (under (dto_key d) (keyed dtos))
under-Among d [] a = absurd a
under-Among d (e ∷ dtos) (inl p) =
    let same : str_eq (dto_key e) (dto_key d) ≡ true =
      subst (λ x. str_eq (dto_key x) (dto_key d) ≡ true) p (eq_refl (dto_key d)) in
    rw same (inl p)
under-Among d (e ∷ dtos) (inr a) = elim (Bool-cases (str_eq (dto_key e) (dto_key d))) [
  | inl same ↦ rw same (inr (under-Among d dtos a))
  | inr other ↦ rw other (under-Among d dtos a)
]

-- What is under a key is one of the dtos, with that key.
under-From :
    (key : String) (e : Dto) (dtos : List Dto)
    → Among e (under key (keyed dtos))
    → Among e dtos × (dto_key e ≡ key)
under-From key e [] a = absurd a
under-From key e (d ∷ dtos) a = elim (Bool-cases (str_eq (dto_key d) key)) [
  | inl same ↦
      elim (subst (λ b. Among e (if b then d ∷ under key (keyed dtos) else under key (keyed dtos)))
        same a) [
          | inl p ↦ (inl p, ap dto_key p ∙ (eq_iff (dto_key d) key).0 same)
          | inr later ↦ (let (b, k) = under-From key e dtos later in (inr b, k))
        ]
  | inr other ↦
      let (b, k) = under-From key e dtos (
        subst (λ b. Among e (if b then d ∷ under key (keyed dtos) else under key (keyed dtos)))
          other a) in
      (inr b, k)
]

some-injective : {A : Type 0} {x y : A} → some x ≡ some y → x ≡ y
some-injective e = cc

lookup-Among :
    {A : Type 0} (key : String) (a : A) (m : List (String × A))
    → lookup key m ≡ some a
    → Among (key, a) m
unfolding lookup
lookup-Among key a [] e = cc
lookup-Among key a ((name, v) ∷ m) e = elim (Bool-cases (str_eq name key)) [
  | inl same ↦
      let v_is_a : v ≡ a =
        some-injective (subst (λ b. (if b then some v else lookup key m) ≡ some a) same e) in
      let name_is_key = (eq_iff name key).0 same in
      inl (ap (λ k. (k, a)) (sym name_is_key) ∙ ap (λ x. (name, x)) (sym v_is_a))
  | inr other ↦
      inr
        (lookup-Among key a m (subst (λ b. (if b then some v else lookup key m) ≡ some a) other e))
]

-- Two of the dtos that have one key have one receiver.
abbrev pub OneReceiver : List Dto → Type 0
OneReceiver dtos =
    (a b : Dto) → Among a dtos → Among b dtos → dto_key a ≡ dto_key b → a.receiver ≡ b.receiver

-- A group of the map with the dto in it, whose first dto has the same receiver.
pub record Group (d : Dto) (m : List (String × List Dto)) : Type 0 where
  pub key : String
  pub first : Dto
  pub more : List Dto
  pub in_map : Among (key, first ∷ more) m
  pub has : Among d (first ∷ more)
  pub receiver : first.receiver ≡ d.receiver

grouped :
    (d : Dto) (dtos xs : List Dto) (m : List (String × List Dto))
    → OneReceiver dtos
    → Among d dtos
    → xs ≡ under (dto_key d) (keyed dtos)
    → lookup (dto_key d) m ≡ some xs
    → Group d m
grouped d dtos [] m one a e found = absurd (subst (Among d) (sym e) (under-Among d dtos a))
grouped d dtos (f ∷ more) m one a e found =
    let (from, same) = under-From (dto_key d) f dtos (subst (Among f) e (inl refl)) in
    record {
      key = dto_key d;
      first = f;
      more = more;
      in_map = lookup-Among (dto_key d) (f ∷ more) m found;
      has = subst (Among d) (sym e) (under-Among d dtos a);
      receiver = one f d from a same;
    }

dto_map-Group :
    (d : Dto) (dtos : List Dto) → OneReceiver dtos → Among d dtos → Group d (dto_map dtos [])
dto_map-Group d dtos one a =
    let all : all_of (lookup (dto_key d) (dto_map dtos [])) ≡ under (dto_key d) (keyed dtos) =
      ap (λ m. all_of (lookup (dto_key d) m)) (dto_map-pairs dtos [])
      ∙ rebuilt_lem (dto_key d) (keyed dtos) in
    elim (Option-cases (lookup (dto_key d) (dto_map dtos []))) [
      | inl n ↦ absurd (subst (Among d) (sym all ∙ ap all_of n) (under-Among d dtos a))
      | inr (xs, found) ↦
          grouped d dtos xs (dto_map dtos []) one a (sym (ap all_of found) ∙ all) found
    ]

-- The message of a group of sms.
abbrev pub sms_of : Links → Dto → List Dto → Message
sms_of l d more = record { tos = d.receiver; subject = ""; content = text_of l d more }

abbrev group_sms : Links → List Dto → Message
group_sms l [] = record { tos = ""; subject = ""; content = "" }
group_sms l (d ∷ more) = sms_of l d more

send_sms_more :
    (l : Links) (groups : List (String × List Dto)) (q : Queues) (x : Message)
    → Among x q.sms
    → Among x (send_sms l groups q).sms
unfolding send_sms write_sms
send_sms_more l [] q x a = a
send_sms_more l ((key, []) ∷ groups) q x a = send_sms_more l groups q x a
send_sms_more l ((key, d ∷ more) ∷ groups) q x a =
    send_sms_more l groups (write_sms (d.receiver ∷ []) (text_of l d more) q) x (inr a)

send_sms_all :
    (l : Links) (groups : List (String × List Dto)) (q : Queues) (key : String) (d : Dto)
    (more : List Dto)
    → Among (key, d ∷ more) groups
    → Among (sms_of l d more) (send_sms l groups q).sms
unfolding send_sms write_sms
send_sms_all l [] q key d more a = absurd a
send_sms_all l ((k, []) ∷ groups) q key d more (inl p) = cc
send_sms_all l ((k, []) ∷ groups) q key d more (inr a) = send_sms_all l groups q key d more a
send_sms_all l ((k, e ∷ rest) ∷ groups) q key d more (inl p) =
    send_sms_more l groups (write_sms (e.receiver ∷ []) (text_of l e rest) q) (sms_of l d more)
      (inl (ap (λ g. group_sms l g.1) p))
send_sms_all l ((k, e ∷ rest) ∷ groups) q key d more (inr a) =
    send_sms_all l groups (write_sms (e.receiver ∷ []) (text_of l e rest) q) key d more a

-- A message in the queue of sms goes to the receiver of the dto, and is that of a group with the
-- dto in it.
pub record Sent (l : Links) (d : Dto) (q : Queues) : Type 0 where
  pub first : Dto
  pub more : List Dto
  pub has : Among d (first ∷ more)
  pub receiver : (sms_of l first more).tos ≡ d.receiver
  pub queued : Among (sms_of l first more) q.sms

pub combine_sms-Grouped :
    (l : Links) (q : Queues) (d : Dto)
    → OneReceiver (pop_all_dto l (reverse q.user_sms) [])
    → Among d (pop_all_dto l (reverse q.user_sms) [])
    → Sent l d (combine_sms l q)
unfolding combine_sms
combine_sms-Grouped l q d one a =
    let dtos = pop_all_dto l (reverse q.user_sms) [] in
    let g = dto_map-Group d dtos one a in
    let q0 = record q { user_sms = [] } in
    record {
      first = g.first;
      more = g.more;
      has = g.has;
      receiver = g.receiver;
      queued = send_sms_all l (dto_map dtos []) q0 g.key g.first g.more g.in_map;
    }

-- The dtos that wait with one key have one receiver.
abbrev pub OneEachKey : Links → List String → Type 0
OneEachKey l queue =
    (a b : Dto)
    → Waits l queue a
    → Waits l queue b
    → dto_key a ≡ dto_key b
    → a.receiver ≡ b.receiver

-- When the dtos that wait with one key have one receiver, each dto whose text waits in the queue,
-- at whatever place, goes out by combineSms in a message to its receiver, which is the message of a
-- group that it belongs to.
pub combine_sms-Sent :
    (l : Links) (q : Queues) (d : Dto)
    → OneEachKey l q.user_sms
    → Waits l q.user_sms d
    → Sent l d (combine_sms l q)
combine_sms-Sent l q d one w =
    combine_sms-Grouped l q d
      (λ a b pa pb k.
        one a b (popped-Waiting l q.user_sms a pa) (popped-Waiting l q.user_sms b pb) k)
      (Waits-popped l q.user_sms d w)
