-- ===== src/Server/Frame.antt =====
-- What a request may change of the server's state, and the helpers of server/server.go.
pub mod Files
pub mod Shares
pub mod Requests
use dropbox_for_ctf.Base.{
  ℕ, ◌+◌, ◌≤◌, ◌≡◌, refl, sym, ap, ◌∙◌, Bool, true, false, Option, none, some, List, [], ◌∷◌, ◌++◌,
  arith, ◌&&◌, ◌||◌, delete_by, update_by, append-nil, append_assoc,
}
use dropbox_for_ctf.Base.{delete_by-delete_by, delete_by-update_by, delete_by-append_one}
use mathlib.Core.Path.{subst}
use dropbox_for_ctf.Text.{Bytes, str_eq}
use dropbox_for_ctf.Text.Laws.{str_eq_refl}
use dropbox_for_ctf.Store.{World, UserRow, FileRow, ShareRow, Cookie, put_cookie}
use dropbox_for_ctf.Store.Rules.{IsInner, IsCalm, store_rules}

-- The parts of the state that a request may change; of the shares and of the sessions, those of one
-- user only.
pub record Scope : Type 0 where
  pub users : Bool
  pub files : Bool
  pub shares : Option Bytes
  pub sessions : Option Bytes
  pub counter : Bool

-- The scope of a request that changes nothing but the file system.
abbrev pub nothing : Scope
nothing = record { users = false; files = false; shares = none; sessions = none; counter = false }

-- The rows in which the user is sharer or sharee, and all others.
abbrev pub is_mine : Bytes → ShareRow → Bool
is_mine u r = str_eq r.sharer u || str_eq r.sharee u

abbrev pub strangers : Bytes → List ShareRow → List ShareRow
strangers u = delete_by (is_mine u)

-- The sessions of the other users.
abbrev pub others : Bytes → List (Bytes × Cookie) → List (Bytes × Cookie)
others u = delete_by λ (k, c). str_eq k u

abbrev pub UsersKept : Bool → List UserRow → List UserRow → Type 0
UsersKept false old new = new ≡ old
UsersKept true old new = (more : List UserRow) × (new ≡ old ++ more)

abbrev pub FilesKept : Bool → List FileRow → List FileRow → Type 0
FilesKept false old new = new ≡ old
FilesKept true old new = Unit

abbrev pub SharesKept : Option Bytes → List ShareRow → List ShareRow → Type 0
SharesKept none old new = new ≡ old
SharesKept (some u) old new = strangers u new ≡ strangers u old

abbrev pub SessionsKept : Option Bytes → List (Bytes × Cookie) → List (Bytes × Cookie) → Type 0
SessionsKept none old new = new ≡ old
SessionsKept (some u) old new = others u new ≡ others u old

abbrev pub CounterKept : Bool → ℕ → ℕ → Type 0
CounterKept false old new = new ≡ old
CounterKept true old new = (old ≤ new) × (new ≤ old + 1)

-- The state has changed from `w` within the scope only.
pub record IsWithin {S : Type 0} (scope : Scope) (w v : World S) : Type 0 where
  pub users : UsersKept scope.users w.users v.users
  pub files : FilesKept scope.files w.files v.files
  pub shares : SharesKept scope.shares w.shares v.shares
  pub sessions : SessionsKept scope.sessions w.cookiemap v.cookiemap
  pub counter : CounterKept scope.counter w.filecount v.filecount

module _ {S : Type 0} (scope : Scope) (w : World S) where
  pub IsWithin-inner : IsInner (IsWithin scope w)
  IsWithin-inner = record {
    os = λ v s h. record {
      users = h.users;
      files = h.files;
      shares = h.shares;
      sessions = h.sessions;
      counter = h.counter;
    };
  }

  pub IsWithin-calm : IsCalm (IsWithin scope w)
  IsWithin-calm = record {
    faults = λ v fs h. record {
      users = h.users;
      files = h.files;
      shares = h.shares;
      sessions = h.sessions;
      counter = h.counter;
    };
  }

UsersKept-refl : (b : Bool) (xs : List UserRow) → UsersKept b xs xs
UsersKept-refl false xs = refl
UsersKept-refl true xs = ([], sym (append-nil xs))

FilesKept-refl : (b : Bool) (xs : List FileRow) → FilesKept b xs xs
FilesKept-refl false xs = refl
FilesKept-refl true xs = tt

SharesKept-refl : (o : Option Bytes) (xs : List ShareRow) → SharesKept o xs xs
SharesKept-refl none xs = refl
SharesKept-refl (some u) xs = refl

SessionsKept-refl : (o : Option Bytes) (xs : List (Bytes × Cookie)) → SessionsKept o xs xs
SessionsKept-refl none xs = refl
SessionsKept-refl (some u) xs = refl

CounterKept-refl : (b : Bool) (n : ℕ) → CounterKept b n n
CounterKept-refl false n = refl
CounterKept-refl true n = (omega arith, omega arith)

pub IsWithin-refl : {S : Type 0} (scope : Scope) (w : World S) → IsWithin scope w w
IsWithin-refl scope w = record {
  users = UsersKept-refl scope.users w.users;
  files = FilesKept-refl scope.files w.files;
  shares = SharesKept-refl scope.shares w.shares;
  sessions = SessionsKept-refl scope.sessions w.cookiemap;
  counter = CounterKept-refl scope.counter w.filecount;
}

UsersKept-append :
    (b : Bool) (xs ys : List UserRow) (x : UserRow)
    → b ≡ true
    → UsersKept b xs ys
    → UsersKept b xs (ys ++ x ∷ [])
UsersKept-append false xs ys x e h = cc e
UsersKept-append true xs ys x e (more, h) =
    (more ++ x ∷ [], ap (λ zs. zs ++ x ∷ []) h ∙ append_assoc xs more (x ∷ []))

FilesKept-any : (b : Bool) (xs ys : List FileRow) → b ≡ true → FilesKept b xs ys
FilesKept-any true xs ys e = tt
FilesKept-any false xs ys e = cc e

SharesKept-step :
    (o : Option Bytes) (u : Bytes) (xs ys zs : List ShareRow)
    → o ≡ some u
    → strangers u zs ≡ strangers u ys
    → SharesKept o xs ys
    → SharesKept o xs zs
SharesKept-step o u xs ys zs e step h =
    subst (λ x. SharesKept x xs zs) (sym e) (step ∙ subst (λ x. SharesKept x xs ys) e h)

others-put_cookie :
    (u : Bytes) (c : Cookie) (m : List (Bytes × Cookie)) → others u (put_cookie u c m) ≡ others u m
unfolding put_cookie
others-put_cookie u c [] = ground (arith, str_eq_refl u)
others-put_cookie u c ((k, d) ∷ m) = ground (arith, others-put_cookie u c m)

SessionsKept-put_cookie :
    (o : Option Bytes) (u : Bytes) (c : Cookie) (old new : List (Bytes × Cookie))
    → o ≡ some u
    → SessionsKept o old new
    → SessionsKept o old (put_cookie u c new)
SessionsKept-put_cookie o u c old new e h =
    subst (λ x. SessionsKept x old (put_cookie u c new)) (sym e)
      (others-put_cookie u c new ∙ subst (λ x. SessionsKept x old new) e h)

-- What the scope allows to be written.
module _ {S : Type 0} (scope : Scope) (w : World S) where
  pub write_users :
      (row : UserRow)
      → scope.users ≡ true
      → (v : World S) → IsWithin scope w v
      → IsWithin scope w (record v { users = v.users ++ row ∷ [] })
  write_users row free v h = record {
    users = UsersKept-append scope.users w.users v.users row free h.users;
    files = h.files;
    shares = h.shares;
    sessions = h.sessions;
    counter = h.counter;
  }

  pub write_files :
      (f : World S → List FileRow)
      → scope.files ≡ true
      → (v : World S) → IsWithin scope w v
      → IsWithin scope w (record v { files = f v })
  write_files f free v h = record {
    users = h.users;
    files = FilesKept-any scope.files w.files (f v) free;
    shares = h.shares;
    sessions = h.sessions;
    counter = h.counter;
  }

  write_shares :
      (u : Bytes) (v : World S) (rows : List ShareRow)
      → scope.shares ≡ some u
      → strangers u rows ≡ strangers u v.shares
      → IsWithin scope w v
      → IsWithin scope w (record v { shares = rows })
  write_shares u v rows mine step h = record {
    users = h.users;
    files = h.files;
    shares = SharesKept-step scope.shares u w.shares v.shares rows mine step h.shares;
    sessions = h.sessions;
    counter = h.counter;
  }

  pub delete_shares :
      (u : Bytes) (q : ShareRow → Bool)
      → scope.shares ≡ some u
      → ((r : ShareRow) → q r ≡ true → is_mine u r ≡ true)
      → (v : World S) → IsWithin scope w v
      → IsWithin scope w (record v { shares = delete_by q v.shares })
  delete_shares u q mine wide v h =
      write_shares u v _ mine (delete_by-delete_by (is_mine u) q wide v.shares) h

  pub update_shares :
      (u : Bytes) (q : ShareRow → Bool) (f : ShareRow → ShareRow)
      → scope.shares ≡ some u
      → ((r : ShareRow) → q r ≡ true → (is_mine u r ≡ true) × (is_mine u (f r) ≡ true))
      → (v : World S) → IsWithin scope w v
      → IsWithin scope w (record v { shares = update_by q f v.shares })
  update_shares u q f mine wide v h =
      write_shares u v _ mine (delete_by-update_by (is_mine u) q f wide v.shares) h

  pub insert_share :
      (u : Bytes) (row : ShareRow)
      → scope.shares ≡ some u
      → is_mine u row ≡ true
      → (v : World S) → IsWithin scope w v
      → IsWithin scope w (record v { shares = v.shares ++ row ∷ [] })
  insert_share u row mine own v h =
      write_shares u v _ mine (delete_by-append_one (is_mine u) row own v.shares) h

  pub write_session :
      (u : Bytes) (c : Cookie)
      → scope.sessions ≡ some u
      → (v : World S) → IsWithin scope w v
      → IsWithin scope w (record v { cookiemap = put_cookie u c v.cookiemap })
  write_session u c mine v h = record {
    users = h.users;
    files = h.files;
    shares = h.shares;
    sessions = SessionsKept-put_cookie scope.sessions u c w.cookiemap v.cookiemap mine h.sessions;
    counter = h.counter;
  }

pub ruleset within_rules = (
  store_rules, IsWithin-inner, IsWithin-calm, write_users, write_files, delete_shares,
  update_shares, insert_share, write_session,
)
