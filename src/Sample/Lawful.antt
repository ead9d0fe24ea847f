-- ===== src/Sample/Lawful.antt =====
-- The file system in memory does what the program relies on.
use dropbox_for_ctf.Base.{◌≡◌, refl, Option, none, some, List, ◌∷◌, arith, Bool-cases, inl, inr}
use dropbox_for_ctf.Text.{Bytes, str_eq}
use dropbox_for_ctf.Text.Laws.{str_eq_refl, eq_of_str_eq}
use dropbox_for_ctf.FilePath.{ok}
use dropbox_for_ctf.Server.Upload.{IsLawful}
use dropbox_for_ctf.Sample.{
  Node, folder, file, link, Disk, find, follow, read_node, is_link, target, create, memory,
}

find_first : (p : Bytes) (n : Node) (ns : List (Bytes × Node)) → find p ((p, n) ∷ ns) ≡ some n
unfolding find
find_first p n ns = rw str_eq_refl

-- A node at a free place hides nothing.
find_kept :
    (q x : Bytes) (m n : Node) (ns : List (Bytes × Node))
    → find q ns ≡ none
    → find x ns ≡ some n
    → find x ((q, m) ∷ ns) ≡ some n
unfolding find
find_kept q x m n ns free there = elim (Bool-cases (str_eq q x)) [
  | inl same ↦ let e = eq_of_str_eq q x same in cc
  | inr differ ↦ rw differ there
]

read_kept :
    (q x b : Bytes) (m : Node) (ns : List (Bytes × Node)) (o : Option Node)
    → find q ns ≡ none
    → find x ns ≡ o
    → read_node (follow x ns) ≡ ok b
    → read_node (follow x ((q, m) ∷ ns)) ≡ ok b
unfolding follow read_node
read_kept q x b m ns none free e h = absurd (ground (arith, e))
read_kept q x b m ns (some folder) free e h = absurd (ground (arith, e))
read_kept q x b m ns (some (file c)) free e h =
    ground (arith, e, find_kept q x m (file c) ns free e)
read_kept q x b m ns (some (link t)) free e h = behind (find t ns) refl
  where
    behind : (o : Option Node) → find t ns ≡ o → read_node (follow x ((q, m) ∷ ns)) ≡ ok b
    behind none f = absurd (ground (arith, e, f))
    behind (some n) f =
        ground (arith, e, f, find_kept q x m (link t) ns free e, find_kept q t m n ns free f)

created :
    (p : Bytes) (n : Node) (s t : Disk)
    → create p n s ≡ (ok tt, t)
    → (find p s.nodes ≡ none) × (t.nodes ≡ (p, n) ∷ s.nodes)
unfolding create
created p n s t e = ground arith

pub memory-IsLawful : IsLawful memory
unfolding memory follow is_link target read_node
memory-IsLawful = record {
  read-write = λ p b s t e. ground (arith, find_first p (file b) s.nodes);
  getwd-write = λ p b s t e. refl;
  lstat-symlink = λ p q s t e.
      let c = created q (link p) s t e in ground (arith, find_first q (link p) s.nodes);
  readlink-symlink = λ p q s t e.
      let c = created q (link p) s t e in ground (arith, find_first q (link p) s.nodes);
  read-symlink = λ p q r b s t e h.
      let c = created q (link p) s t e in
      rw c.1 (read_kept q r b (link p) s.nodes (find r s.nodes) c.0 refl h);
  getwd-symlink = λ p q s t e. refl;
}
