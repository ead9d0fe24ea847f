-- ===== src/Server/Invariant/Sound.antt =====
-- The invariant of the three tables, and the helpers of server/server.go.
use dropbox_for_ctf.Base.{ℕ, ◌+◌, ◌≤◌, ◌≡◌, Bool, true, List, arith, ltb, delete_by, update_by}
use dropbox_for_ctf.Text.{Bytes}
use dropbox_for_ctf.Go.Keeps.{Keeps}
use dropbox_for_ctf.Store.{Host, World, FileRow, ShareRow, Cookie}
use dropbox_for_ctf.Store.Rules.{IsInner, IsCalm, store_rules}
use dropbox_for_ctf.Server.Account.{check_user, check_cookie}
use dropbox_for_ctf.Server.Files.{abs_or, release, remove}
use dropbox_for_ctf.Server.Invariant.Users.{IsUsers}
use dropbox_for_ctf.Server.Invariant.Files.{
  IsFiles, IsFiles-delete_by, IsFiles-set_owners, set_owners,
}
use dropbox_for_ctf.Server.Invariant.Shares.{IsShares, IsShares-delete_by}

pub record IsSound {S : Type 0} (w : World S) : Type 0 where
  pub users : IsUsers w.users
  pub files : IsFiles w.filecount w.files
  pub shares : IsShares w.shares

module _ {S : Type 0} where
  pub IsSound-inner : IsInner {S = S} IsSound
  IsSound-inner = record {
    os = λ w s h. record { users = h.users; files = h.files; shares = h.shares };
  }

  pub IsSound-calm : IsCalm {S = S} IsSound
  IsSound-calm = record {
    faults = λ w fs h. record { users = h.users; files = h.files; shares = h.shares };
  }

  pub cookie-IsSound :
      (m : World S → List (Bytes × Cookie)) (w : World S)
      → IsSound w
      → IsSound (record w { cookiemap = m w })
  cookie-IsSound m w h = record { users = h.users; files = h.files; shares = h.shares }

  pub delete_share-IsSound :
      (q : ShareRow → Bool) (w : World S)
      → IsSound w
      → IsSound (record w { shares = delete_by q w.shares })
  delete_share-IsSound q w h = record {
    users = h.users;
    files = h.files;
    shares = IsShares-delete_by q w.shares h.shares;
  }

  pub delete_file-IsSound :
      (q : FileRow → Bool) (w : World S)
      → IsSound w
      → IsSound (record w { files = delete_by q w.files })
  delete_file-IsSound q w h = record {
    users = h.users;
    files = IsFiles-delete_by w.filecount q w.files h.files;
    shares = h.shares;
  }

  pub set_owners-IsSound :
      (q : FileRow → Bool) (n : ℕ)
      → 1 ≤ n
      → (w : World S) → IsSound w
      → IsSound (record w { files = update_by q (set_owners n) w.files })
  set_owners-IsSound q n owned w h = record {
    users = h.users;
    files = IsFiles-set_owners w.filecount q n w.files owned h.files;
    shares = h.shares;
  }

pub owned_still : (n : ℕ) → ltb 0 n ≡ true → 1 ≤ n
owned_still n h = ground arith

pub owned_again : (n : ℕ) → 1 ≤ n + 1
owned_again n = omega arith

pub ruleset sound_rules = (
  store_rules, IsSound-inner, IsSound-calm, cookie-IsSound, delete_share-IsSound,
  delete_file-IsSound, set_owners-IsSound, owned_still, owned_again,
)

module _ {S : Type 0} (host : Host S) where
  check_user-IsSound : (u : Bytes) → Keeps {W = World S} IsSound (check_user host u)
  unfolding check_user
  check_user-IsSound u = search sound_rules

  pub check_cookie-IsSound : (u c : Bytes) → Keeps {W = World S} IsSound (check_cookie host u c)
  unfolding check_cookie
  check_cookie-IsSound u c = search (sound_rules, check_user-IsSound) depth 12

  pub abs_or-IsSound :
      {R : Type 0} (p : Bytes) (f : Bytes → R) → Keeps {W = World S} IsSound (abs_or host p f)
  unfolding abs_or
  abs_or-IsSound p f = search sound_rules

  release-IsSound : (p n : Bytes) → Keeps {W = World S} IsSound (release host p n)
  unfolding release
  release-IsSound p n = search sound_rules depth 12

  pub remove-IsSound : (p u : Bytes) → Keeps {W = World S} IsSound (remove host p u)
  unfolding remove
  remove-IsSound p u = search (sound_rules, abs_or-IsSound, release-IsSound) depth 20
