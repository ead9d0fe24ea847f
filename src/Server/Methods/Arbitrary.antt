-- ===== src/Server/Methods/Arbitrary.antt =====
-- Requests as they come over the network: any name, with any bytes for its arguments.
use dropbox_for_ctf.Base.{ℕ, List, [], ◌∷◌, All}
use dropbox_for_ctf.Go.Keeps.{Keeps, Keeps-exit}
use dropbox_for_ctf.Store.{Host, World}
use dropbox_for_ctf.Rpc.Dispatch.{Codec, request}
use dropbox_for_ctf.Rpc.Dispatch
use dropbox_for_ctf.Rpc.Preserve.{IsSafe, Keeps-request}
use dropbox_for_ctf.Server.Invariant.Sound.{IsSound}
use dropbox_for_ctf.Server.Invariant.Requests.{handler_rules}
use dropbox_for_ctf.Server.Methods.{
  GoType, Value, string_value, bytes_value, chperm_body, share_body, unshare_body, upload_body,
  download_body, list_body, mkdir_body, remove_body, pwd_body, cd_body, authenticate_body,
  signup_body,
}
use dropbox_for_ctf.Server.Methods.Table.{methods}

module _ {S : Type 0} (host : Host S) (fuel : ℕ) where
  chperm_body-IsSound : (vs : List Value) → Keeps {W = World S} IsSound (chperm_body host fuel vs)
  unfolding chperm_body
  chperm_body-IsSound
        (string_value p ∷ string_value v ∷ string_value n ∷ string_value u ∷ string_value c ∷ []) =
      search handler_rules
  chperm_body-IsSound _ = Keeps-exit

  share_body-IsSound : (vs : List Value) → Keeps {W = World S} IsSound (share_body host fuel vs)
  unfolding share_body
  share_body-IsSound
        (string_value p ∷ string_value v ∷ string_value n ∷ string_value u ∷ string_value c ∷ []) =
      search handler_rules
  share_body-IsSound _ = Keeps-exit

  unshare_body-IsSound : (vs : List Value) → Keeps {W = World S} IsSound (unshare_body host fuel vs)
  unfolding unshare_body
  unshare_body-IsSound (string_value p ∷ string_value v ∷ string_value u ∷ string_value c ∷ []) =
      search handler_rules
  unshare_body-IsSound _ = Keeps-exit

  upload_body-IsSound : (vs : List Value) → Keeps {W = World S} IsSound (upload_body host fuel vs)
  unfolding upload_body
  upload_body-IsSound (string_value p ∷ string_value u ∷ bytes_value b ∷ string_value c ∷ []) =
      search handler_rules
  upload_body-IsSound _ = Keeps-exit

  download_body-IsSound :
      (vs : List Value) → Keeps {W = World S} IsSound (download_body host fuel vs)
  unfolding download_body
  download_body-IsSound (string_value p ∷ string_value u ∷ string_value c ∷ []) =
      search handler_rules
  download_body-IsSound _ = Keeps-exit

  list_body-IsSound : (vs : List Value) → Keeps {W = World S} IsSound (list_body host fuel vs)
  unfolding list_body
  list_body-IsSound (string_value p ∷ string_value u ∷ string_value c ∷ []) = search handler_rules
  list_body-IsSound _ = Keeps-exit

  mkdir_body-IsSound : (vs : List Value) → Keeps {W = World S} IsSound (mkdir_body host fuel vs)
  unfolding mkdir_body
  mkdir_body-IsSound (string_value p ∷ string_value u ∷ string_value c ∷ []) = search handler_rules
  mkdir_body-IsSound _ = Keeps-exit

  remove_body-IsSound : (vs : List Value) → Keeps {W = World S} IsSound (remove_body host fuel vs)
  unfolding remove_body
  remove_body-IsSound (string_value p ∷ string_value u ∷ string_value c ∷ []) = search handler_rules
  remove_body-IsSound _ = Keeps-exit

  pwd_body-IsSound : (vs : List Value) → Keeps {W = World S} IsSound (pwd_body host fuel vs)
  unfolding pwd_body
  pwd_body-IsSound (string_value u ∷ string_value c ∷ []) = search handler_rules
  pwd_body-IsSound _ = Keeps-exit

  cd_body-IsSound : (vs : List Value) → Keeps {W = World S} IsSound (cd_body host fuel vs)
  unfolding cd_body
  cd_body-IsSound (string_value p ∷ string_value u ∷ string_value c ∷ []) = search handler_rules
  cd_body-IsSound _ = Keeps-exit

  authenticate_body-IsSound :
      (vs : List Value) → Keeps {W = World S} IsSound (authenticate_body host fuel vs)
  unfolding authenticate_body
  authenticate_body-IsSound (string_value u ∷ string_value p ∷ []) = search handler_rules
  authenticate_body-IsSound _ = Keeps-exit

  signup_body-IsSound : (vs : List Value) → Keeps {W = World S} IsSound (signup_body host fuel vs)
  unfolding signup_body
  signup_body-IsSound (string_value u ∷ string_value p ∷ []) = search handler_rules
  signup_body-IsSound _ = Keeps-exit

  methods-IsSafe : All (IsSafe IsSound) (methods host fuel)
  unfolding methods
  methods-IsSafe = (
    record { call = unshare_body-IsSound },
    (
      record { call = chperm_body-IsSound },
      (
        record { call = share_body-IsSound },
        (
          record { call = upload_body-IsSound },
          (
            record { call = download_body-IsSound },
            (
              record { call = list_body-IsSound },
              (
                record { call = mkdir_body-IsSound },
                (
                  record { call = remove_body-IsSound },
                  (
                    record { call = pwd_body-IsSound },
                    (
                      record { call = cd_body-IsSound },
                      (
                        record { call = authenticate_body-IsSound },
                        (record { call = signup_body-IsSound }, tt),
                      ),
                    ),
                  ),
                ),
              ),
            ),
          ),
        ),
      ),
    ),
  )

  -- A request of any name, with any bytes for its arguments, whoever sends it.
  pub request-IsSound :
      (codec : Codec GoType Value) (req : Dispatch.Request)
      → Keeps {W = World S} IsSound (request codec (methods host fuel) req)
  request-IsSound codec req = Keeps-request IsSound codec (methods host fuel) req methods-IsSafe
