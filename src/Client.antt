-- ===== src/Client.antt =====
-- client/client.go and lib/support/client: the state of the client, its errors, and its calls of the
-- server.
pub mod Methods
pub mod Login
pub mod Report
pub mod Told
pub mod Home
pub mod Transfer
pub mod Dialogue
pub mod Copy
pub mod Typed
pub mod Main
pub mod Quit
pub mod Shell
mod Tests
use dropbox_for_ctf.Base.{
  ℕ, not, Bool, true, false, Option, none, some, List, [], ◌∷◌, ◌++◌, ◌==◌, map, if◌then◌else◌,
}
use dropbox_for_ctf.Text.{Bytes, lit, str_eq}
use dropbox_for_ctf.FilePath.{Result, ok, err}
use dropbox_for_ctf.Go.{
  Body, Func, next, ret, exit, hang, ◌>>=◌, ◌>>◌, pure, return, exit_process, modify,
}
use dropbox_for_ctf.Rpc.Dispatch.{Codec}
use dropbox_for_ctf.Rpc.Remote.{Network, Link, remote_call}
use dropbox_for_ctf.Server.Methods.{GoType, string_type, Value, string_value}

-- An `error`: of `fmt.Errorf`, or a `fatalError` around one.
pub data Failure : Type 0 where
  plain : Bytes → Failure
  fatal_error : Bytes → Bool → Failure

-- `(A, error)`
pub data Attempt (A : Type 0) : Type 0 where
  done : A → Attempt A
  failed : Failure → Attempt A

-- `makeFatalError` and its two callers
abbrev pub fatal_of : Bytes → Bool → Failure
fatal_of e fatal = fatal_error e fatal

abbrev pub make_fatal_error : Bytes → Failure
make_fatal_error e = fatal_of e true

abbrev pub make_non_fatal_error : Bytes → Failure
make_non_fatal_error e = fatal_of e false

-- `isFatal`
abbrev pub is_fatal : Failure → Bool
is_fatal (plain e) = false
is_fatal (fatal_error e fatal) = fatal

-- What `%v` prints of an error.
abbrev pub text_of : Failure → Bytes
text_of (plain e) = e
text_of (fatal_error e fatal) = e

pub record Client (W : Type 0) : Type 0 where
  pub link : Link W
  pub sessionid : Bytes
  pub user : Bytes
  pub currdir : Bytes
  -- what each further read of the standard input gives; then it is at its end
  pub stdin : List Bytes
  pub stdout : Bytes
  pub stderr : Bytes

module _ {W R : Type 0} where
  -- `fmt.Print`
  unfoldable pub print : Bytes → Body (Client W) R (Unit {0})
  print text = modify λ c. record c { stdout = c.stdout ++ text }

  -- `fmt.Fprintf(os.Stderr, …)`
  unfoldable pub log : Bytes → Body (Client W) R (Unit {0})
  log text = modify λ c. record c { stderr = c.stderr ++ text }

  -- What the remote call does to the connection.
  unfoldable pub over_link : {A : Type 0} → Func (Link W) A → Body (Client W) R A
  over_link m c = elim (m c.link) [
    | next a l ↦ next a (record c { link = l })
    | ret a l ↦ next a (record c { link = l })
    | exit l ↦ exit (record c { link = l })
    | hang l ↦ hang (record c { link = l })
  ]

-- The variable that `Call` decodes into, where it starts as the empty string.
abbrev pub string_of : Option Value → Bytes
string_of (some (string_value s)) = s
string_of v = []

abbrev pub strings : List Bytes → List Value
strings = map string_value

module _ {W A : Type 0} (network : Network W) (codec : Codec GoType Value) where
  -- `err = c.server.Call(…); if err != nil { return client.MakeFatalError(err) }`
  unfoldable pub call_server :
      Bytes → GoType → List Value → Body (Client W) (Attempt A) (Option Value)
  unfolding over_link
  call_server method t vs = do
    r ← over_link (remote_call network codec method (some t) vs)
    elim r [ ok v ↦ pure v | err e ↦ return (failed (make_fatal_error e)) ]

module _ {W A : Type 0} (errorf : Bytes → Bytes) where
  -- `fmt.Print("Your session has expired. …"); os.Exit(1)` for `reauth`
  unfoldable pub check_session : Bytes → Body (Client W) (Attempt A) (Unit {0})
  unfolding print
  check_session reply =
      if str_eq reply (lit "reauth")
      then print (lit "Your session has expired. Please log in again.\n") >> exit_process
      else pure tt

  -- What the methods do with the text of a reply.
  unfoldable pub check_reply : Bytes → Body (Client W) (Attempt A) (Unit {0})
  unfolding check_session
  check_reply [] = pure tt
  check_reply (b ∷ bs) = do check_session (b ∷ bs); return (failed (plain (errorf (b ∷ bs))))
