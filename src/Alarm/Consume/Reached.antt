-- ===== src/Alarm/Consume/Reached.antt =====
-- From an event of low priority to the messages: each user of the action is reached.
use mathlib.Core.List.{reverse}
use ref_falcon.Prelude.{
  ◌≡◌, refl, sym, ap, ◌∙◌, subst, ◌||◌, inl, inr, true, false, List, [], ◌∷◌, Option, none, some,
}
use ref_falcon.Prelude.Int.{pos, ltb_ℤ}
use ref_falcon.Prelude.Text.{String, str_eq}
use ref_falcon.Judge.Store.Send.{Among}
use ref_falcon.Alarm.Messages.{AlarmEvent, Dto, Queues, build_common_sms_content}
use ref_falcon.Alarm.Consume.{
  Action, User, Outside, dto_of, lpush, parse_user_sms, parse_user_im, parse_user_mail,
  consume_low_events,
}
use ref_falcon.Alarm.Combine.{Links, pop_all_dto, combine_sms}
use ref_falcon.Alarm.Combine.Delivered.{OneReceiver, Sent, combine_sms-Grouped}
use ref_falcon.Alarm.Combine.Waiting.{Among-reverse, pop_all_dto_all}

module _ (o : Outside) (e : AlarmEvent) where
  -- The dto that a user gets for the event, and its text.
  abbrev pub sms_dto : User → Dto
  sms_dto u = dto_of e "" (build_common_sms_content e) u.phone

  lpush_more :
      (t : Option String) (xs : List String) (x : String) → Among x xs → Among x (lpush t xs)
  lpush_more none xs x a = a
  lpush_more (some t) xs x a = inr a

  parse_user_sms_more :
      (users : List User) (q : Queues) (x : String)
      → Among x q.user_sms
      → Among x (parse_user_sms o e users q).user_sms
  unfolding parse_user_sms
  parse_user_sms_more [] q x a = a
  parse_user_sms_more (u ∷ users) q x a =
      parse_user_sms_more users _ x (lpush_more (o.marshal (sms_dto u)) q.user_sms x a)

  parse_user_sms_all :
      (users : List User) (q : Queues) (u : User) (text : String)
      → o.marshal (sms_dto u) ≡ some text
      → Among u users
      → Among text (parse_user_sms o e users q).user_sms
  unfolding parse_user_sms
  parse_user_sms_all [] q u text m a = absurd a
  parse_user_sms_all (v ∷ users) q u text m (inl p) = parse_user_sms_more users _ text (
      subst (λ t. Among text (lpush t q.user_sms))
        (sym (ap (λ w. o.marshal (sms_dto w)) (sym p) ∙ m)) (inl refl))
  parse_user_sms_all (v ∷ users) q u text m (inr a) = parse_user_sms_all users _ u text m a

  parse_user_im_sms :
      (users : List User) (q : Queues) → (parse_user_im o e users q).user_sms ≡ q.user_sms
  unfolding parse_user_im
  parse_user_im_sms [] q = refl
  parse_user_im_sms (u ∷ users) q = parse_user_im_sms users _

  parse_user_mail_sms :
      (users : List User) (q : Queues) → (parse_user_mail o e users q).user_sms ≡ q.user_sms
  unfolding parse_user_mail
  parse_user_mail_sms [] q = refl
  parse_user_mail_sms (u ∷ users) q = parse_user_mail_sms users _

  consume_low_events_all :
      (action : Action) (q : Queues) (u : User) (text : String)
      → str_eq action.uic "" ≡ false
      → ltb_ℤ e.priority (pos 3) ≡ true
      → o.marshal (sms_dto u) ≡ some text
      → Among u (o.get_users action.uic)
      → Among text (consume_low_events o e action q).user_sms
  unfolding consume_low_events
  consume_low_events_all action q u text team urgent m a =
      let users = o.get_users action.uic in
      rw (team, urgent)
        (subst (Among text)
          (sym (
            parse_user_mail_sms users (parse_user_im o e users (parse_user_sms o e users q))
            ∙ parse_user_im_sms users (parse_user_sms o e users q)))
          (parse_user_sms_all users q u text m a))

module _ (l : Links) where
  -- An event of a priority below 3 with a team: when the text of its dto for a user is read back as
  -- that dto, and the dtos that wait with one key have one receiver, the next combineSms puts a
  -- message to the phone of the user into the queue, for a group with this dto in it.
  pub consume_low_events-Sent :
      (o : Outside) (e : AlarmEvent) (action : Action) (q : Queues) (u : User) (text : String)
      → str_eq action.uic "" ≡ false
      → ltb_ℤ e.priority (pos 3) ≡ true
      → Among u (o.get_users action.uic)
      → o.marshal (sms_dto o e u) ≡ some text
      → l.parse text ≡ some (sms_dto o e u)
      → (str_eq text "" || str_eq text "nil") ≡ false
      → OneReceiver (pop_all_dto l (reverse (consume_low_events o e action q).user_sms) [])
      → Sent l (sms_dto o e u) (combine_sms l (consume_low_events o e action q))
  consume_low_events-Sent o e action q u text team urgent a m p n one =
      let q1 = consume_low_events o e action q in
      combine_sms-Grouped l q1 (sms_dto o e u) one (
        pop_all_dto_all l (reverse q1.user_sms) [] text (sms_dto o e u) n p (
          Among-reverse text q1.user_sms []
            (consume_low_events_all o e action q u text team urgent m a)))
