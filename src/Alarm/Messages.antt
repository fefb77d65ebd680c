-- ===== src/Alarm/Messages.antt =====
-- alarm/cron/builder.go, alarm/cron/model.go and alarm/redi/msg_writer.go: the texts of an event and
-- the queues in redis. An event holds the texts that the methods of model.Event and the helpers of
-- common/utils give for it.
use ref_falcon.Prelude.{List, [], ◌∷◌, if◌then◌else◌}
use ref_falcon.Prelude.Int.{ℤ}
use ref_falcon.Prelude.Text.{String, str_eq, show}
use ref_falcon.Judge.Rules.{◌+++◌}

pub record AlarmEvent : Type 0 where
  pub action_id : ℤ
  pub priority : ℤ
  pub status : String
  pub endpoint : String
  pub note : String
  pub func : String
  pub metric : String
  pub sorted_tags : String
  pub left_value : String
  pub operator : String
  pub right_value : String
  pub max_step : ℤ
  pub current_step : ℤ
  pub formatted_time : String
  pub link : String

unfoldable pub build_common_sms_content : AlarmEvent → String
build_common_sms_content e =
    "[P"
    +++ show e.priority
    +++ "]["
    +++ e.status
    +++ "]["
    +++ e.endpoint
    +++ "][]["
    +++ e.note
    +++ " "
    +++ e.func
    +++ " "
    +++ e.metric
    +++ " "
    +++ e.sorted_tags
    +++ " "
    +++ e.left_value
    +++ e.operator
    +++ e.right_value
    +++ "][O"
    +++ show e.current_step
    +++ " "
    +++ e.formatted_time
    +++ "]"

-- The same, with a word behind the note when the event is over.
unfoldable pub build_common_im_content : AlarmEvent → String
unfolding build_common_sms_content
build_common_im_content e =
    if str_eq "OK" e.status
    then build_common_sms_content (record e { note = e.note +++ "已恢复" })
    else build_common_sms_content e

unfoldable pub build_common_mail_content : AlarmEvent → String
build_common_mail_content e =
    e.status
    +++ "\r\nP"
    +++ show e.priority
    +++ "\r\nEndpoint:"
    +++ e.endpoint
    +++ "\r\nMetric:"
    +++ e.metric
    +++ "\r\nTags:"
    +++ e.sorted_tags
    +++ "\r\n"
    +++ e.func
    +++ ": "
    +++ e.left_value
    +++ e.operator
    +++ e.right_value
    +++ "\r\nNote:"
    +++ e.note
    +++ "\r\nMax:"
    +++ show e.max_step
    +++ ", Current:"
    +++ show e.current_step
    +++ "\r\nTimestamp:"
    +++ e.formatted_time
    +++ "\r\n"
    +++ e.link
    +++ "\r\n"

-- `SmsDto`, `MailDto` and `ImDto`: the receiver is Phone, Email or IM, and only a mail has a
-- subject.
pub record Dto : Type 0 where
  pub priority : ℤ
  pub metric : String
  pub subject : String
  pub content : String
  pub receiver : String
  pub status : String

-- `model.Sms`, `model.IM` and `model.Mail`.
pub record Message : Type 0 where
  pub tos : String
  pub subject : String
  pub content : String

-- The queues of messages, and those of the texts of dtos that wait to be combined, with the left
-- end in front. `called` are the addresses that callbacks were sent to.
pub record Queues : Type 0 where
  pub sms : List Message
  pub im : List Message
  pub mail : List Message
  pub user_sms : List String
  pub user_im : List String
  pub user_mail : List String
  pub called : List String

-- `strings.Join`.
abbrev pub join : String → List String → String
join sep [] = ""
join sep (s ∷ []) = s
join sep (s ∷ t ∷ rest) = s +++ sep +++ join sep (t ∷ rest)

-- The three writers, which take no message to nobody. A message that is pushed is in front.
unfoldable pub write_sms : List String → String → Queues → Queues
write_sms [] content q = q
write_sms (t ∷ tos) content q = record q {
  sms = record { tos = join "," (t ∷ tos); subject = ""; content = content } ∷ q.sms;
}

unfoldable pub write_im : List String → String → Queues → Queues
write_im [] content q = q
write_im (t ∷ tos) content q = record q {
  im = record { tos = join "," (t ∷ tos); subject = ""; content = content } ∷ q.im;
}

unfoldable pub write_mail : List String → String → String → Queues → Queues
write_mail [] subject content q = q
write_mail (t ∷ tos) subject content q = record q {
  mail = record { tos = join "," (t ∷ tos); subject = subject; content = content } ∷ q.mail;
}
