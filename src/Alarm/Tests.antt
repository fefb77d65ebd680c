-- ===== src/Alarm/Tests.antt =====
-- The theorems on alarm, applied to one event and one user.
use mathlib.Core.List.{reverse}
use ref_falcon.Prelude.{◌≡◌, refl, ap, ◌∙◌, sym, inl, inr, [], ◌∷◌, some, none}
use ref_falcon.Prelude.Int.{pos}
use ref_falcon.Alarm.Messages.{AlarmEvent, Dto, Queues}
use ref_falcon.Alarm.Consume.{Action, User, Outside, consume_low_events}
use ref_falcon.Alarm.Consume.Reached.{sms_dto, consume_low_events-Sent}
use ref_falcon.Alarm.Combine.{Links, pop_all_dto, combine_sms}
use ref_falcon.Alarm.Combine.Delivered.{OneReceiver, OneEachKey, Sent, combine_sms-Sent}
use ref_falcon.Alarm.Combine.Waiting.{Waits}

abbrev event : AlarmEvent
event = record {
  action_id = pos 1;
  priority = pos 2;
  status = "PROBLEM";
  endpoint = "host";
  note = "busy";
  func = "all(#3)";
  metric = "cpu";
  sorted_tags = "";
  left_value = "90";
  operator = ">";
  right_value = "80";
  max_step = pos 3;
  current_step = pos 1;
  formatted_time = "now";
  link = "";
}

abbrev user : User
user = record { phone = "138"; email = "a@b"; im = "a" }

abbrev action : Action
action = record {
  uic = "ops";
  url = "";
  callback = pos 0;
  before_callback_sms = pos 0;
  before_callback_mail = pos 0;
  after_callback_sms = pos 0;
  after_callback_mail = pos 0;
}

abbrev outside : Outside
outside = record {
  get_action = λ i. some action;
  parse_teams = λ t. ("138" ∷ [], "a@b" ∷ [], "a" ∷ []);
  get_users = λ t. user ∷ [];
  marshal = λ d. some "dto";
  response = λ e a. ("success", "");
}

abbrev dto : Dto
dto = record {
  priority = pos 2;
  metric = "cpu";
  subject = "";
  content = "text";
  receiver = "138";
  status = "PROBLEM";
}

abbrev empty : Queues
empty = record {
  sms = [];
  im = [];
  mail = [];
  user_sms = [];
  user_im = [];
  user_mail = [];
  called = [];
}

abbrev waiting : Queues
waiting = record empty { user_sms = "dto" ∷ [] }

abbrev links : Dto → Links
links d = record { parse = λ t. some d; link_to_sms = λ t. none; dashboard = "http://d" }

one_dto : (d : Dto) → OneReceiver (d ∷ [])
one_dto d a b (inl p) (inl q) k = ap (λ x. x.receiver) (p ∙ sym q)
one_dto d a b (inl p) (inr q) k = absurd q
one_dto d a b (inr p) q k = absurd p

some-one : {A : Type 0} {a b : A} → some a ≡ some b → a ≡ b
some-one e = cc

one_key : OneEachKey (links dto) waiting.user_sms
one_key a b p q k = ap (λ x. x.receiver) (sym (some-one p.parsed) ∙ some-one q.parsed)

waits : Waits (links dto) waiting.user_sms dto
waits = record { reply = "dto"; queued = inl refl; some_text = refl; parsed = refl }

combine_sms-Sent_example : Sent (links dto) dto (combine_sms (links dto) waiting)
combine_sms-Sent_example = combine_sms-Sent (links dto) waiting dto one_key waits

abbrev event_dto : Dto
event_dto = sms_dto outside event user

event_alone : OneReceiver (
    pop_all_dto
      (links event_dto)
      (reverse (consume_low_events outside event action empty).user_sms)
      [])
unfolding pop_all_dto consume_low_events ref_falcon.Alarm.Consume.parse_user_sms
    ref_falcon.Alarm.Consume.parse_user_im ref_falcon.Alarm.Consume.parse_user_mail
event_alone = one_dto event_dto

consume_low_events-Sent_example :
    Sent
      (links event_dto)
      event_dto
      (combine_sms (links event_dto) (consume_low_events outside event action empty))
consume_low_events-Sent_example =
    consume_low_events-Sent (links event_dto) outside event action empty user "dto" refl refl
      (inl refl) refl refl refl event_alone
