-- ===== src/Alarm/Consume.antt =====
-- alarm/cron/event_consumer.go and alarm/cron/callback.go: what an event sends, and what it puts by to
-- be combined. The database of teams and users, the JSON text of a dto and the HTTP call of a
-- callback are outside.
pub mod Reached
use ref_falcon.Prelude.{Bool, List, [], ◌∷◌, Option, none, some, if◌then◌else◌}
use ref_falcon.Prelude.Int.{ℤ, pos, leb_ℤ, ltb_ℤ, eqb_ℤ}
use ref_falcon.Prelude.Text.{String, str_eq}
use ref_falcon.Judge.Rules.{◌+++◌}
use ref_falcon.Alarm.Messages.{
  AlarmEvent, build_common_sms_content, build_common_im_content, build_common_mail_content, Dto,
  Queues, write_sms, write_im, write_mail,
}

pub record Action : Type 0 where
  pub uic : String
  pub url : String
  pub callback : ℤ
  pub before_callback_sms : ℤ
  pub before_callback_mail : ℤ
  pub after_callback_sms : ℤ
  pub after_callback_mail : ℤ

pub record User : Type 0 where
  pub phone : String
  pub email : String
  pub im : String

-- `response` is what the callback's HTTP call ends with: success or "fail:error", and the answer.
pub record Outside : Type 0 where
  pub get_action : ℤ → Option Action
  pub parse_teams : String → List String × List String × List String
  pub get_users : String → List User
  pub marshal : Dto → Option String
  pub response : AlarmEvent → Action → String × String

-- `Callback`, which gives a text on what came back.
unfoldable pub callback_message : Outside → AlarmEvent → Action → String
callback_message o event action =
    if str_eq action.url ""
    then "callback url is blank"
    else "curl "
      +++ action.url
      +++ " "
      +++ (o.response event action).0
      +++ ". resp: "
      +++ (o.response event action).1

-- The call itself; without an address there is none.
unfoldable pub call_url : Action → Queues → Queues
call_url action q = if str_eq action.url "" then q else record q { called = action.url ∷ q.called }

unfoldable pub handle_callback : Outside → AlarmEvent → Action → Queues → Queues
unfolding callback_message call_url
handle_callback o event action q =
    if str_eq action.uic ""
    then call_url action q
    else let phones = (o.parse_teams action.uic).0 in
      let mails = (o.parse_teams action.uic).1 in
      let ims = (o.parse_teams action.uic).2 in
      let sms_content = build_common_sms_content event in
      let q1 =
        if eqb_ℤ action.before_callback_sms (pos 1)
        then write_im ims (build_common_im_content event) (write_sms phones sms_content q)
        else q in
      let q2 =
        if eqb_ℤ action.before_callback_mail (pos 1)
        then write_mail mails sms_content (build_common_mail_content event) q1
        else q1 in
      let message = callback_message o event action in
      let q3 = call_url action q2 in
      let q4 =
        if eqb_ℤ action.after_callback_sms (pos 1)
        then write_im ims message (write_sms phones message q3)
        else q3 in
      if eqb_ℤ action.after_callback_mail (pos 1) then write_mail mails message message q4 else q4

unfoldable pub consume_high_events : Outside → AlarmEvent → Action → Queues → Queues
consume_high_events o event action q =
    if str_eq action.uic ""
    then q
    else let phones = (o.parse_teams action.uic).0 in
      let mails = (o.parse_teams action.uic).1 in
      let ims = (o.parse_teams action.uic).2 in
      let sms_content = build_common_sms_content event in
      let q1 = if ltb_ℤ event.priority (pos 3) then write_sms phones sms_content q else q in
      write_mail mails sms_content (build_common_mail_content event)
        (write_im ims (build_common_im_content event) q1)

-- The three loops over the users of an action; a dto without a JSON text is passed over.
abbrev pub lpush : Option String → List String → List String
lpush none queue = queue
lpush (some text) queue = text ∷ queue

abbrev pub dto_of : AlarmEvent → String → String → String → Dto
dto_of event subject content receiver = record {
  priority = event.priority;
  metric = event.metric;
  subject = subject;
  content = content;
  receiver = receiver;
  status = event.status;
}

unfoldable pub parse_user_sms : Outside → AlarmEvent → List User → Queues → Queues
parse_user_sms o event [] q = q
parse_user_sms o event (user ∷ users) q = parse_user_sms o event users (record q {
  user_sms =
      lpush (o.marshal (dto_of event "" (build_common_sms_content event) user.phone)) q.user_sms;
})

unfoldable pub parse_user_im : Outside → AlarmEvent → List User → Queues → Queues
parse_user_im o event [] q = q
parse_user_im o event (user ∷ users) q = parse_user_im o event users (record q {
  user_im = lpush (o.marshal (dto_of event "" (build_common_im_content event) user.im)) q.user_im;
})

unfoldable pub parse_user_mail : Outside → AlarmEvent → List User → Queues → Queues
parse_user_mail o event [] q = q
parse_user_mail o event (user ∷ users) q = parse_user_mail o event users (record q {
  user_mail =
      lpush
        (o.marshal (
          dto_of event (build_common_sms_content event) (build_common_mail_content event)
            user.email))
        q.user_mail;
})

unfoldable pub consume_low_events : Outside → AlarmEvent → Action → Queues → Queues
unfolding parse_user_sms parse_user_im parse_user_mail
consume_low_events o event action q =
    if str_eq action.uic ""
    then q
    else let users = o.get_users action.uic in
      let q1 = if ltb_ℤ event.priority (pos 3) then parse_user_sms o event users q else q in
      parse_user_mail o event users (parse_user_im o event users q1)

abbrev pub consume_action : Outside → AlarmEvent → Bool → Option Action → Queues → Queues
consume_action o event is_high none q = q
consume_action o event is_high (some action) q =
    let q1 = if eqb_ℤ action.callback (pos 1) then handle_callback o event action q else q in
    if is_high then consume_high_events o event action q1 else consume_low_events o event action q1

unfoldable pub consume : Outside → AlarmEvent → Bool → Queues → Queues
unfolding handle_callback consume_high_events consume_low_events
consume o event is_high q =
    if leb_ℤ event.action_id (pos 0)
    then q
    else consume_action o event is_high (o.get_action event.action_id) q
