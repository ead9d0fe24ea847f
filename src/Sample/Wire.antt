-- ===== src/Sample/Wire.antt =====
-- An encoding of the values that remote calls carry, and a network without losses.
use dropbox_for_ctf.Base.{
  Option, none, some, ℕ, zero, suc, ◌≡◌, refl, ap, arith, ◌==◌, Bool, true, false, List, [], ◌∷◌,
  ◌++◌,
}
use dropbox_for_ctf.Text.{Bytes, lit, length}
use dropbox_for_ctf.FilePath.{Result, ok, err}
use dropbox_for_ctf.Go.{Outcome, next, ret, exit, hang}
use dropbox_for_ctf.Store.{Host, World, quiet}
use dropbox_for_ctf.Client.{Client}
use dropbox_for_ctf.Sample.{Disk, world, cookie}
use dropbox_for_ctf.Rpc.Dispatch.{Codec, request}
use dropbox_for_ctf.Rpc.Remote.{Network}
use dropbox_for_ctf.Server.Handlers.{DirEnt}
use dropbox_for_ctf.Server.Methods.{
  GoType, string_type, bytes_type, bool_type, list_return_type, pwd_return_type,
  download_return_type, auth_return_type, Value, string_value, bytes_value, bool_value, list_value,
  pwd_value, download_value, auth_value, type_of,
}
use dropbox_for_ctf.Server.Methods.Table.{methods}
use dropbox_for_ctf.Server.Methods.Call.{IsFaithful, IsServing}

abbrev bit : Bool → ℕ
bit true = 1
bit false = 0

-- A text with its length in front.
abbrev sized : Bytes → Bytes → Bytes
sized s rest = length s ∷ s ++ rest

abbrev write_entries : List DirEnt → Bytes → Bytes
write_entries [] rest = rest
write_entries (e ∷ es) rest = bit e.is_dir ∷ sized e.name (write_entries es rest)

abbrev entry_count : List DirEnt → ℕ
entry_count [] = 0
entry_count (e ∷ es) = suc (entry_count es)

unfoldable pub write : Value → Bytes
write (string_value s) = 0 ∷ s
write (bytes_value s) = 0 ∷ s
write (bool_value b) = bit b ∷ []
write (list_value r) = entry_count r.entries ∷ write_entries r.entries r.err_text
write (pwd_value r) = sized r.path r.err_text
write (download_value r) = sized r.body r.err_text
write (auth_value r) = bit r.auth ∷ r.session

abbrev cut : ℕ → Bytes → Bytes × Bytes
cut zero s = ([], s)
cut (suc n) [] = ([], [])
cut (suc n) (c ∷ s) = let (a, b) = cut n s in (c ∷ a, b)

abbrev read_sized : Bytes → Bytes × Bytes
read_sized [] = ([], [])
read_sized (n ∷ s) = cut n s

abbrev read_entries : ℕ → Bytes → List DirEnt × Bytes
read_entries zero s = ([], s)
read_entries (suc n) [] = ([], [])
read_entries (suc n) (d ∷ s) =
    let (name, rest) = read_sized s in
    let (es, end) = read_entries n rest in (record { is_dir = d == 1; name = name } ∷ es, end)

abbrev malformed : Result Value
malformed = err (lit "gob: malformed")

unfoldable pub read : GoType → Bytes → Result Value
read string_type (x ∷ s) = ok (string_value s)
read bytes_type (x ∷ s) = ok (bytes_value s)
read bool_type (x ∷ s) = ok (bool_value (x == 1))
read list_return_type (n ∷ s) =
    let (es, rest) = read_entries n s in ok (list_value (record { entries = es; err_text = rest }))
read pwd_return_type (n ∷ s) =
    let (p, rest) = cut n s in ok (pwd_value (record { path = p; err_text = rest }))
read download_return_type (n ∷ s) =
    let (b, rest) = cut n s in ok (download_value (record { body = b; err_text = rest }))
read auth_return_type (x ∷ s) = ok (auth_value (record { auth = x == 1; session = s }))
read t s = malformed

abbrev pub wire : Codec GoType Value
wire = record { encode = λ v. ok (write v); encode_after = λ done v. ok (write v); decode = read }

one-bit : (b : Bool) → (bit b == 1) ≡ b
one-bit true = refl
one-bit false = refl

cut-append : (s rest : Bytes) → cut (length s) (s ++ rest) ≡ (s, rest)
cut-append [] rest = refl
cut-append (c ∷ s) rest = rw (cut-append s rest) refl

read_entries-write :
    (es : List DirEnt) (rest : Bytes)
    → read_entries (entry_count es) (write_entries es rest) ≡ (es, rest)
read_entries-write [] rest = refl
read_entries-write (e ∷ es) rest =
    ground (
      arith,
      one-bit e.is_dir,
      cut-append e.name (write_entries es rest),
      read_entries-write es rest,
    )

read-write :
    (v : Value) → (c : ℕ) × (bs : Bytes) × (write v ≡ c ∷ bs) × (read (type_of v) (c ∷ bs) ≡ ok v)
unfolding write read
read-write (string_value s) = (_, _, refl, refl)
read-write (bytes_value s) = (_, _, refl, refl)
read-write (bool_value true) = (_, _, refl, refl)
read-write (bool_value false) = (_, _, refl, refl)
read-write (list_value r) = (_, _, refl, rw (read_entries-write r.entries r.err_text) refl)
read-write (pwd_value r) = (_, _, refl, rw (cut-append r.path r.err_text) refl)
read-write (download_value r) = (_, _, refl, rw (cut-append r.body r.err_text) refl)
read-write (auth_value r) = (_, _, refl, rw (one-bit r.auth) refl)

pub wire-IsFaithful : IsFaithful wire
wire-IsFaithful = record {
  encodes = λ v. let (c, bs, e, f) = read-write v in (c, bs, ap ok e, f);
  plain = λ done v h. refl;
}

-- What arrives of a reply; when the server ends without one the connection is lost, and while it is
-- busy for ever the call waits for ever.
abbrev delivered : {W R : Type 0} → W → Outcome W (Result R) (Result R) → Option (Result R × W)
delivered w (next r v) = some (r, v)
delivered w (ret r v) = some (r, v)
delivered w (exit v) = some (err (lit "unexpected EOF"), v)
delivered w (hang v) = none

module _ {S : Type 0} (host : Host S) (fuel : ℕ) where
  -- Each exchange is one request to the server.
  abbrev pub near : Network (World S)
  near = record {
    dial = λ w. (ok tt, w);
    exchange = λ req w. delivered w (request wire (methods host fuel) req w);
  }

  pub near-IsServing : IsServing host fuel wire near
  near-IsServing = record { dials = λ w. refl; exchanges = λ req r w v e. ap (delivered w) e }

-- alice's client, in her root.
abbrev pub client : Client (World Disk)
client = record {
  link = record { connected = false; world = quiet world };
  sessionid = cookie;
  user = lit "alice";
  currdir = lit "./userfs/alice/";
  stdin = [];
  stdout = [];
  stderr = [];
}
