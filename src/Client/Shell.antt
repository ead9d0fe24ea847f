-- ===== src/Client/Shell.antt =====
-- lib/support/client/cli.go: RunCLI over the interface Client of lib/support/client/client.go.
pub mod Lines
pub mod Loop
pub mod Words
use dropbox_for_ctf.Base.{
  ℕ, zero, suc, not, Bool, true, false, ◌||◌, ◌&&◌, Option, none, some, List, [], ◌∷◌, ◌++◌, ◌==◌,
  ltb, if◌then◌else◌,
}
use dropbox_for_ctf.Text.{Bytes, lit, str_eq}
use dropbox_for_ctf.FilePath.{Result, ok, err}
use dropbox_for_ctf.Go.{
  Body, Func, next, ret, exit, hang, ◌>>=◌, ◌>>◌, pure, return, gets, modify, call,
}
use dropbox_for_ctf.Server.Handlers.{DirEnt}
use dropbox_for_ctf.Client.{Failure, plain, Attempt, done, failed, is_fatal, text_of}

-- The interface `Client`, on a state `X`. With an error the results are empty.
pub record Api (X : Type 0) : Type 0 where
  pub upload : Bytes → Bytes → Func X (Attempt (Unit {0}))
  pub download : Bytes → Func X (Attempt Bytes)
  pub remove : Bytes → Func X (Attempt (Unit {0}))
  pub list : Bytes → Func X (Attempt (List DirEnt))
  pub mkdir : Bytes → Func X (Attempt (Unit {0}))
  pub pwd : Func X (Attempt Bytes)
  pub cd : Bytes → Func X (Attempt (Unit {0}))
  pub share : Bytes → Bytes → Bytes → Func X (Attempt (Unit {0}))
  pub unshare : Bytes → Bytes → Func X (Attempt (Unit {0}))
  pub chperm : Bytes → Bytes → Bytes → Func X (Attempt (Unit {0}))

-- `ioutil.ReadFile` and `ioutil.WriteFile` on the user's own files.
pub record Local (D : Type 0) : Type 0 where
  pub read_file : Bytes → D → Result Bytes
  pub write_file : Bytes → Bytes → D → Result (Unit {0}) × D

pub record Shell (X D : Type 0) : Type 0 where
  pub client : X
  pub disk : D
  pub stdout : Bytes
  pub stderr : Bytes

-- `strings.Fields`, on ASCII
abbrev is_space : ℕ → Bool
is_space c = c == b' ' || (not (ltb c 9) && ltb c 14)

abbrev put : ℕ → List Bytes → List Bytes
put c [] = (c ∷ []) ∷ []
put c (w ∷ ws) = (c ∷ w) ∷ ws

-- The fields, where `inside` says whether the text goes on with the first one.
abbrev split_fields : Bytes → Bool × List Bytes
split_fields [] = (false, [])
split_fields (c ∷ s) =
    let (inside, ws) = split_fields s in
    if is_space c then (false, ws) else (true, if inside then put c ws else (c ∷ []) ∷ ws)

unfoldable pub fields : Bytes → List Bytes
fields s = let (inside, ws) = split_fields s in ws

-- `DirEntString` of an entry of the server
abbrev pub dir_ent_string : DirEnt → Bytes
dir_ent_string d = (if d.is_dir then lit "d " else lit "- ") ++ d.name

module _ {X D R : Type 0} where
  unfoldable pub say : Bytes → Body (Shell X D) R (Unit {0})
  say text = modify λ s. record s { stdout = s.stdout ++ text }

  unfoldable pub complain : Bytes → Body (Shell X D) R (Unit {0})
  complain text = modify λ s. record s { stderr = s.stderr ++ text }

  unfoldable pub ask : {A : Type 0} → Func X A → Body (Shell X D) R A
  ask m s = elim (m s.client) [
    | next a x ↦ next a (record s { client = x })
    | ret a x ↦ next a (record s { client = x })
    | exit x ↦ exit (record s { client = x })
    | hang x ↦ hang (record s { client = x })
  ]

  unfoldable pub on_disk : {A : Type 0} → (D → Result A × D) → Body (Shell X D) R (Result A)
  on_disk f s = let (r, d) = f s.disk in next r (record s { disk = d })

  unfoldable pub usage : Bytes → Bytes → Body (Shell X D) R (Unit {0})
  usage name arguments = say (lit "Usage: " ++ name ++ arguments ++ lit "\n")

  unfoldable pub say_entries : List DirEnt → Body (Shell X D) R (Unit {0})
  unfolding say
  say_entries [] = pure tt
  say_entries (e ∷ es) = say (dir_ent_string e ++ lit "\n") >> say_entries es

  unfoldable pub say_commands : List Bytes → Body (Shell X D) R (Unit {0})
  unfolding say
  say_commands [] = pure tt
  say_commands (c ∷ cs) = say (lit "\t" ++ c ++ lit "\n") >> say_commands cs

-- A statement of `RunCLI`, which returns an error or nil.
abbrev pub Statement : Type 0 → Type 0 → Type 0
Statement X D = Body (Shell X D) (Option Failure) (Unit {0})

module _ {X D : Type 0} where
  -- `if isFatal(err) { return err }`, here with what it prints before
  unfoldable pub abort_if : Bytes → Failure → Statement X D
  unfolding complain
  abort_if last e = if is_fatal e then complain last >> return (some e) else pure tt

  -- `if err != nil { fmt.Fprintf(os.Stderr, …, err); if isFatal(err) { … }; break }`
  unfoldable pub settle :
      {A : Type 0} → Bytes → Bytes → (A → Statement X D) → Attempt A → Statement X D
  unfolding abort_if
  settle text last go (done a) = go a
  settle text last go (failed e) = complain (text ++ text_of e ++ lit "\n") >> abort_if last e

  abbrev pub nothing : Unit {0} → Statement X D
  nothing u = pure tt

  -- A call of a method, and what follows a success.
  unfoldable pub attempt :
      {A : Type 0} → Func X (Attempt A) → Bytes → Bytes → (A → Statement X D) → Statement X D
  unfolding ask settle
  attempt m text last go = ask m >>= λ r. settle text last go r
