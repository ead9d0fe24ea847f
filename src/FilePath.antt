-- ===== src/FilePath.antt =====
-- The functions of Go's `path/filepath` that server/server.go calls, on slash-separated paths.
pub mod Walk
pub mod Laws
pub mod Below
use dropbox_for_ctf.Base.{Bool, true, false, ◌||◌, List, [], ◌∷◌, ◌++◌, ◌==◌, if◌then◌else◌, map}
use mathlib.Core.List.{reverse}
use dropbox_for_ctf.Text.{Bytes, slash, split, join}

-- A Go result `(value, err)`: the error is its message.
pub data Result {ℓ} (A : Type ℓ) : Type ℓ where
  ok : A → Result A
  err : Bytes → Result A

-- `filepath.IsAbs`
unfoldable pub is_abs : Bytes → Bool
is_abs [] = false
is_abs (c ∷ p) = c == slash

-- The elements of a path, as `Clean` reads them.
pub data Element : Type 0 where
  skip : Element
  parent : Element
  name : Bytes → Element

-- "" and "." are skipped, ".." goes up.
unfoldable pub element : Bytes → Element
element [] = skip
element (c ∷ []) = if c == b'.' then skip else name (c ∷ [])
element (c ∷ d ∷ []) =
    if (c == b'.') then (if d == b'.' then parent else name (c ∷ d ∷ [])) else name (c ∷ d ∷ [])
element (c ∷ d ∷ e ∷ s) = name (c ∷ d ∷ e ∷ s)

-- The output of `Clean` so far, the last element first. `nothing left to go up from` is `..` in a
-- relative path and the root in a rooted one.
unfoldable pub step : Bool → List Element → Element → List Element
step rooted out skip = out
step rooted out (name n) = name n ∷ out
step rooted [] parent = if rooted then [] else parent ∷ []
step rooted (name n ∷ out) parent = out
step rooted (o ∷ out) parent = parent ∷ o ∷ out

unfoldable pub reduce : Bool → List Element → List Bytes → List Element
unfolding element step
reduce rooted out [] = out
reduce rooted out (c ∷ cs) = reduce rooted (step rooted out (element c)) cs

unfoldable pub spell : Element → Bytes
spell skip = []
spell parent = b'.' ∷ b'.' ∷ []
spell (name n) = n

abbrev or_dot : Bytes → Bytes
or_dot [] = b'.' ∷ []
or_dot (c ∷ s) = c ∷ s

-- `filepath.Clean`
unfoldable pub clean : Bytes → Bytes
unfolding is_abs reduce spell
clean p =
    let elements = join (map spell (reverse (reduce (is_abs p) [] (split p)))) in
    if is_abs p then slash ∷ elements else or_dot elements

-- `filepath.Join(dir, path)`: empty leading parts are left out.
unfoldable pub join_path : Bytes → Bytes → Bytes
join_path [] [] = []
join_path [] (c ∷ path) = clean (c ∷ path)
join_path (d ∷ dir) path = clean ((d ∷ dir) ++ slash ∷ path)

-- `filepath.Abs`, given what `os.Getwd` returns
unfoldable pub abs : Result Bytes → Bytes → Result Bytes
unfolding is_abs join_path
abs wd path =
    if is_abs path
    then ok (clean path)
    else elim wd [ ok dir ↦ ok (join_path dir path) | err e ↦ err e ]

last_nonempty : Bytes → List Bytes → Bytes
last_nonempty found [] = found
last_nonempty found ([] ∷ cs) = last_nonempty found cs
last_nonempty found ((c ∷ s) ∷ cs) = last_nonempty (c ∷ s) cs

-- `filepath.Base`: trailing slashes go, then all up to the last slash; "." and "/" where nothing is left.
unfoldable pub base : Bytes → Bytes
unfolding last_nonempty
base [] = b'.' ∷ []
base (c ∷ p) = last_nonempty (slash ∷ []) (split (c ∷ p))
