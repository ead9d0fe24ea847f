-- ===== src/Client/Login.antt =====
-- client/client.go: the log-in dialogue, AskCreds, newUserDetails, displayoptions and main's loop.
use dropbox_for_ctf.Base.{
  ℕ, zero, suc, Bool, true, false, ◌||◌, Option, none, some, List, [], ◌∷◌, ◌++◌, ◌==◌,
  if◌then◌else◌,
}
use dropbox_for_ctf.Text.{Bytes, lit, str_eq}
use dropbox_for_ctf.FilePath.{Result, ok, err}
use dropbox_for_ctf.Go.{
  Body, Func, next, ◌>>=◌, ◌>>◌, pure, return, exit_process, hang, modify, call,
}
use dropbox_for_ctf.Rpc.Dispatch.{Codec}
use dropbox_for_ctf.Rpc.Remote.{Network, remote_call}
use dropbox_for_ctf.Server.Account.{AuthReturn}
use dropbox_for_ctf.Server.Methods.{
  GoType, bool_type, auth_return_type, Value, bool_value, auth_value,
}
use dropbox_for_ctf.Client.{Client, print, log, over_link, strings}

-- Whether a text has a newline, what it is up to there, and what follows.
abbrev pub cut_line : Bytes → Option (Bytes × Bytes)
cut_line [] = none
cut_line (c ∷ s) =
    if c == b'\n'
    then some (c ∷ [], s)
    else elim (cut_line s) [ none ↦ none | some (l, rest) ↦ some (c ∷ l, rest) ]

-- `reader.ReadString('\n')`: the line and what stays in the reader's buffer. At the end of the
-- input it is the error `EOF`.
abbrev pub read_line : Bytes → List Bytes → Result (Bytes × Bytes) × List Bytes
read_line buffer [] = elim (cut_line buffer) [
  | none ↦ (err (lit "EOF"), [])
  | some found ↦ (ok found, [])
]
read_line buffer (chunk ∷ rest) =
    let later = read_line (buffer ++ chunk) rest in
    elim (cut_line buffer) [ none ↦ later | some found ↦ (ok found, chunk ∷ rest) ]

-- `strings.TrimRight(s, " \r\n")`
abbrev pub trim_right : Bytes → Bytes
trim_right [] = []
trim_right (c ∷ s) = elim (trim_right s) [
  | [] ↦ if c == b' ' || (c == b'\r' || c == b'\n') then [] else c ∷ []
  | d ∷ t ↦ c ∷ d ∷ t
]

module _ {W R : Type 0} where
  -- A read from a function's own reader, by its buffer.
  unfoldable pub read_string : Bytes → Body (Client W) R (Result (Bytes × Bytes))
  read_string buffer c =
      let (r, rest) = read_line buffer c.stdin in next r (record c { stdin = rest })

  -- `if readErr != nil { fmt.Fprintf(os.Stderr, …, readErr); return … }`
  unfoldable pub or_log : {A : Type 0} → R → Bytes → Result A → Body (Client W) R A
  unfolding log
  or_log r text (ok a) = pure a
  or_log r text (err e) = log (text ++ e ++ lit "\n") >> return r

-- The variable that `Call` decodes into.
abbrev pub bool_of : Option Value → Bool
bool_of (some (bool_value b)) = b
bool_of v = false

abbrev pub auth_of : Option Value → AuthReturn
auth_of (some (auth_value r)) = r
auth_of v = record { auth = false; session = [] }

module _ {W : Type 0} (network : Network W) (codec : Codec GoType Value) where
  -- `AskCreds`
  unfoldable pub ask_creds : Func (Client W) Bool
  unfolding print read_string or_log over_link
  ask_creds = do
    print (lit "Enter username: ")
    r ← read_string []
    (username, buffer) ← or_log false (lit "error reading username: ") r
    print (lit "Enter Password: ")
    p ← read_string buffer
    (password, left) ← or_log false (lit "error reading password: ") p
    modify λ c. record c {
      user = trim_right username;
      currdir = lit "./userfs/" ++ trim_right username ++ lit "/";
    }
    answer ← over_link (
        remote_call network codec (lit "authenticate") (some auth_return_type)
          (strings (trim_right username ∷ trim_right password ∷ [])))
    v ← or_log false (lit "error authenticating: ") answer
    modify λ c. record c { sessionid = (auth_of v).session }
    pure (auth_of v).auth

  -- The loop that asks for the password once more, until the two are the same; on fuel.
  unfoldable pub confirm : ℕ → Bytes → Bytes → Bytes → Body (Client W) Bool (Unit {0})
  unfolding print log read_string or_log
  confirm zero password password_confirm buffer = hang
  confirm (suc n) password password_confirm buffer =
      if str_eq password password_confirm then pure tt else (do
        log (lit "Password does not match!")
        print (lit "Confirm new password: ")
        r ← read_string buffer
        (again, left) ← or_log false (lit "error reading password: ") r
        confirm n password again left)

  unfoldable pub explain : {R : Type 0} → Bool → Body (Client W) R (Unit {0})
  unfolding print
  explain true = pure tt
  explain false = print (
      lit
        "Username already exists, or your username is not between 5 and 16 characters, or your password is less than 6 characters!\n")

  -- `newUserDetails`
  unfoldable pub new_user_details : ℕ → Func (Client W) Bool
  unfolding confirm explain
  new_user_details n = do
    print (lit "Enter new username: ")
    r ← read_string []
    (username, buffer) ← or_log false (lit "error reading username: ") r
    print (lit "Enter new Password: ")
    p ← read_string buffer
    (password, left) ← or_log false (lit "error reading password: ") p
    print (lit "Confirm new password: ")
    q ← read_string left
    (password_confirm, last) ← or_log false (lit "error reading password: ") q
    confirm n password password_confirm last
    answer ← over_link (
        remote_call network codec (lit "signup") (some bool_type)
          (strings (trim_right username ∷ trim_right password ∷ [])))
    v ← or_log false (lit "error authenticating: ") answer
    explain (bool_of v)
    pure (bool_of v)

  -- `for found_creds != true { …; found_creds = AskCreds(server) }`, on fuel
  unfoldable pub log_in : {R : Type 0} → ℕ → Body (Client W) R (Unit {0})
  unfolding ask_creds log
  log_in zero = hang
  log_in (suc n) = do
    found_creds ← call ask_creds
    if found_creds then pure tt else log (lit "Wrong credentials!\n") >> log_in n

  -- `for signedUp == false { signedUp = newUserDetails(server) }`, on fuel
  unfoldable pub sign_up : {R : Type 0} → ℕ → Body (Client W) R (Unit {0})
  unfolding new_user_details
  sign_up zero = hang
  sign_up (suc n) = do
    signed_up ← call (new_user_details (suc n))
    if signed_up then pure tt else sign_up n

  -- `displayoptions`
  unfoldable pub display_options : ℕ → Func (Client W) Bool
  unfolding log_in sign_up
  display_options n = do
    print (
        lit
          "Please select an option...\n1...Log in to an existing account\n2...Create a new account\n")
    r ← read_string []
    elim r [
      | err e ↦ log (lit "error reading option: " ++ e ++ lit "\n") >> exit_process
      | ok (chosenoption, left) ↦
          if str_eq chosenoption (lit "1\n")
          then log_in n >> pure false
          else (if str_eq chosenoption (lit "2\n")
              then sign_up n >> print (lit "New user created!\n") >> pure true
              else pure true)
    ]

  -- main's loop over `displayoptions`, on fuel
  unfoldable pub until_logged_in : {R : Type 0} → ℕ → Body (Client W) R (Unit {0})
  unfolding display_options
  until_logged_in zero = hang
  until_logged_in (suc n) = do
    redisplay ← call (display_options (suc n))
    if redisplay then until_logged_in n else pure tt
