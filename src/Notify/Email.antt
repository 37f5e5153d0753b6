-- ===== src/Notify/Email.antt =====
-- internal/server/api/notifier_email.go: the mails of the notification rules. The server is
-- `deliver_smtp`, attempt by attempt: none, or the text of its error.
use bongsu.Prelude.{
  ℕ, not, ◌&&◌, Option, none, some, List, [], ◌∷◌, ◌++◌, ltb, ◌==◌, if◌then◌else◌, map,
}
use bongsu.Prelude.Int.{ℤ, pos}
use bongsu.Prelude.Result.{Result, ok, err}
use bongsu.Prelude.Sort.{filter}
use bongsu.Text.{Bytes, codes, contains, equal, is_empty, one_of, split_on, to_lower, trim_space}
use bongsu.Notify.{env_int}
use bongsu.Notify.Deliver.{Verdict, stop, go_on, deliver}

pub record SmtpConfig : Type 0 where
  pub host : Bytes
  pub port : ℤ
  pub username : Bytes
  pub password : Bytes
  pub sender : Bytes
  pub encryption : Bytes

abbrev pub encryptions : List Bytes
encryptions = codes "starttls" ∷ codes "tls" ∷ codes "none" ∷ []

abbrev pub or_starttls : Bytes → Bytes
or_starttls enc = if is_empty enc then codes "starttls" else enc

abbrev pub def_port : Bytes → ℤ
def_port enc = if equal enc (codes "tls") then pos 465 else pos 587

-- `env` is `os.Getenv`.
unfoldable pub smtp_config_from_env : (Bytes → Bytes) → Result Bytes SmtpConfig
unfolding env_int equal one_of to_lower trim_space
smtp_config_from_env env =
    let host = trim_space (env (codes "BONGSU_SMTP_HOST")) in
    let sender = trim_space (env (codes "BONGSU_SMTP_FROM")) in
    let enc = or_starttls (to_lower (trim_space (env (codes "BONGSU_SMTP_ENCRYPTION")))) in
    if is_empty host
    then err (codes "BONGSU_SMTP_HOST is not configured")
    else if is_empty sender
    then err (codes "BONGSU_SMTP_FROM is not configured")
    else if not (one_of enc encryptions)
    then err (codes "BONGSU_SMTP_ENCRYPTION must be starttls, tls, or none")
    else ok (record {
      host = host;
      port = env_int (env (codes "BONGSU_SMTP_PORT")) (def_port enc);
      username = trim_space (env (codes "BONGSU_SMTP_USERNAME"));
      password = env (codes "BONGSU_SMTP_PASSWORD");
      sender = sender;
      encryption = enc;
    })

-- Of the text of the member "to".
unfoldable pub email_recipients : Bytes → List Bytes
unfolding filter contains split_on trim_space
email_recipients to =
    filter (λ (addr : Bytes). not (is_empty addr) && contains addr (codes "@"))
      (map trim_space (split_on b',' to))

-- `strings.ReplaceAll(body, "\n", "\r\n")`
unfoldable pub with_crlf : Bytes → Bytes
with_crlf [] = []
with_crlf (c ∷ s) = if c == 10 then 13 ∷ 10 ∷ with_crlf s else c ∷ with_crlf s

-- `strings.Join(to, ", ")`
unfoldable pub join_commas : List Bytes → Bytes
join_commas [] = []
join_commas (addr ∷ []) = addr
join_commas (addr ∷ next ∷ addrs) = addr ++ codes ", " ++ join_commas (next ∷ addrs)

abbrev pub crlf : Bytes
crlf = 13 ∷ 10 ∷ []

-- `date` is the formatted time.
unfoldable pub build_email_message : Bytes → List Bytes → Bytes → Bytes → Bytes → Bytes
unfolding join_commas with_crlf
build_email_message from to subject date body =
    codes "From: "
    ++ from
    ++ crlf
    ++ codes "To: "
    ++ join_commas to
    ++ crlf
    ++ codes "Subject: "
    ++ subject
    ++ crlf
    ++ codes "Date: "
    ++ date
    ++ crlf
    ++ codes "MIME-Version: 1.0"
    ++ crlf
    ++ codes "Content-Type: text/plain; charset=utf-8"
    ++ crlf
    ++ crlf
    ++ with_crlf body

-- The status, the message of the error, and the attempts.
pub record Outcome : Type 0 where
  pub status : Bytes
  pub error_message : Bytes
  pub attempts : ℕ

abbrev pub failed : Bytes → ℕ → Outcome
failed e k = record { status = codes "failed"; error_message = e; attempts = k }

abbrev pub sent : ℕ → Outcome
sent k = record { status = codes "sent"; error_message = []; attempts = k }

unfoldable pub judge_mail : ℕ → ℕ → Option Bytes → Verdict Outcome
judge_mail n k none = stop (sent k)
judge_mail n k (some e) = if ltb k n then go_on (failed e n) else stop (failed e n)

unfoldable pub send_to : ℕ → (ℕ → Option Bytes) → List Bytes → Outcome
unfolding judge_mail deliver
send_to n deliver_smtp [] = failed (codes "no valid recipients in channel_config.to") 1
send_to n deliver_smtp (addr ∷ addrs) =
    deliver (λ (k : ℕ). judge_mail n k (deliver_smtp k)) n (failed [] n)

-- `to` is the member "to" of the channel's configuration, and `n` the attempts allowed.
unfoldable pub send_email : (Bytes → Bytes) → ℕ → (ℕ → Option Bytes) → Bytes → Outcome
unfolding smtp_config_from_env email_recipients send_to
send_email env n deliver_smtp to = elim (smtp_config_from_env env) [
  | err e ↦ failed e 1
  | ok cfg ↦ send_to n deliver_smtp (email_recipients to)
]
