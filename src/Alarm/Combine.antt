-- ===== src/Alarm/Combine.antt =====
-- alarm/cron/combiner.go: the dtos that wait are grouped by priority, status, receiver and metric, and
-- a group becomes one message. The service that shortens a text to a link is outside.
pub mod Waiting
pub mod Delivered
use mathlib.Core.List.{reverse}
use Prim.Native.Char.{Char, code}
use ref_falcon.Prelude.{
  List, [], ◌∷◌, ◌++◌, map, get_or, length, ◌==◌, Bool, false, ◌||◌, Option, none, some, ◌≡◌, refl,
  if◌then◌else◌,
}
use ref_falcon.Prelude.Int.{pos}
use ref_falcon.Prelude.Text.{String, str_eq, show}
use ref_falcon.Judge.Rules.{◌+++◌}
use ref_falcon.Judge.Sync.{append_at}
use ref_falcon.Alarm.Messages.{Dto, Queues, join, write_sms, write_im, write_mail}

-- `parse` is json.Unmarshal; `link_to_sms` gives `none` for an error and for "".
pub record Links : Type 0 where
  pub parse : String → Option Dto
  pub link_to_sms : String → Option String
  pub dashboard : String

-- `strings.Split(s, "][")`, a character at a time; `pending` is a "]" before s that was not put
-- into a part yet.
abbrev cons_head : Char → List String → List String
cons_head c [] = []
cons_head c (part ∷ parts) = String.◌∷◌ c part ∷ parts

abbrev cons_char : Bool → Char → List String → List String
cons_char pending c parts =
    let with_c = if code c == b']' then parts else cons_head c parts in
    if pending then (if code c == b'[' then "" ∷ parts else cons_head "]" with_c) else with_c

unfoldable pub split_brackets : Bool → String → List String
split_brackets pending String.[] = (if pending then "]" else "") ∷ []
split_brackets pending (String.◌∷◌ c s) =
    let parts = split_brackets (code c == b']') s in cons_char pending c parts

-- The third part, or "".
unfoldable pub example : String → String
unfolding split_brackets
example first = get_or (split_brackets false first) 2 ""

-- What the loop of popAllSmsDto keeps of a reply; "" and "nil" are passed over, and so is a text
-- that is no dto.
abbrev pub keep_dto : Option Dto → List Dto → List Dto
keep_dto none ret = ret
keep_dto (some dto) ret = ret ++ dto ∷ []

-- The three loops, which are alike, over the replies of RPOP from the right end on.
unfoldable pub pop_all_dto : Links → List String → List Dto → List Dto
pop_all_dto l [] ret = ret
pop_all_dto l (reply ∷ replies) ret =
    pop_all_dto l replies
      (if str_eq reply "" || str_eq reply "nil" then ret else keep_dto (l.parse reply) ret)

unfoldable pub dto_key : Dto → String
dto_key d = show d.priority +++ d.status +++ d.receiver +++ d.metric

-- The loop that fills dtoMap.
unfoldable pub dto_map : List Dto → List (String × List Dto) → List (String × List Dto)
unfolding append_at
dto_map [] m = m
dto_map (d ∷ dtos) m = dto_map dtos (append_at (dto_key d) d m)

-- The message for a group of sms or im; a group is never empty.
unfoldable pub combined_text : Links → Dto → List Dto → String
unfolding example
combined_text l d more =
    let content = join ",," (d.content ∷ map (λ e. e.content) more) in
    let head =
      "[P"
      +++ show d.priority
      +++ "]["
      +++ d.status
      +++ "] "
      +++ show (pos (length (d ∷ more)))
      +++ " "
      +++ d.metric in
    elim (l.link_to_sms content) [
      | none ↦ head +++ ".  e.g. " +++ example d.content +++ ". detail in email"
      | some path ↦
          head
          +++ " e.g. "
          +++ example d.content
          +++ " "
          +++ l.dashboard
          +++ "/portal/links/"
          +++ path
          +++ " "
    ]

abbrev pub text_of : Links → Dto → List Dto → String
text_of l d [] = d.content
text_of l d (e ∷ more) = combined_text l d (e ∷ more)

unfoldable pub send_sms : Links → List (String × List Dto) → Queues → Queues
unfolding combined_text
send_sms l [] q = q
send_sms l ((key, []) ∷ groups) q = send_sms l groups q
send_sms l ((key, d ∷ more) ∷ groups) q =
    send_sms l groups (write_sms (d.receiver ∷ []) (text_of l d more) q)

unfoldable pub send_im : Links → List (String × List Dto) → Queues → Queues
unfolding combined_text
send_im l [] q = q
send_im l ((key, []) ∷ groups) q = send_im l groups q
send_im l ((key, d ∷ more) ∷ groups) q =
    send_im l groups (write_im (d.receiver ∷ []) (text_of l d more) q)

abbrev pub mail_subject : Dto → List Dto → String
mail_subject d [] = d.subject
mail_subject d (e ∷ more) =
    "[P"
    +++ show d.priority
    +++ "]["
    +++ d.status
    +++ "] "
    +++ show (pos (length (d ∷ e ∷ more)))
    +++ " "
    +++ d.metric

abbrev pub mail_content : Dto → List Dto → String
mail_content d more = join "\r\n" (d.content ∷ map (λ e. e.content) more)

unfoldable pub send_mail : List (String × List Dto) → Queues → Queues
send_mail [] q = q
send_mail ((key, []) ∷ groups) q = send_mail groups q
send_mail ((key, d ∷ more) ∷ groups) q =
    send_mail groups (write_mail (d.receiver ∷ []) (mail_subject d more) (mail_content d more) q)

-- Each takes all that waits in its queue, from the right end on.
unfoldable pub combine_sms : Links → Queues → Queues
unfolding pop_all_dto dto_map send_sms
combine_sms l q =
    send_sms l (dto_map (pop_all_dto l (reverse q.user_sms) []) []) (record q { user_sms = [] })

unfoldable pub combine_im : Links → Queues → Queues
unfolding pop_all_dto dto_map send_im
combine_im l q =
    send_im l (dto_map (pop_all_dto l (reverse q.user_im) []) []) (record q { user_im = [] })

unfoldable pub combine_mail : Links → Queues → Queues
unfolding pop_all_dto dto_map send_mail
combine_mail l q =
    send_mail (dto_map (pop_all_dto l (reverse q.user_mail) []) []) (record q { user_mail = [] })

third_part : example "[P1][OK][host][][note]" ≡ "host"
unfolding example
third_part = refl
