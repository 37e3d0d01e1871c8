-- ===== src/Examples/Find.antt =====
-- find on a small tree: the directory `a` with an unused entry, its own entry, a file `b` and a
-- directory `c`, in which there is another file `b`.
use lab_utilities.Base.{◌≡◌, refl, [], ◌∷◌, ◌++◌, some, if◌then◌else◌, true}
use lab_utilities.Find.{
  Text, directory, file, Dirent, Files, found, find, same_text, find_opened, find_loop, visit,
  getname, count_name, fmtname, after_slash,
}

abbrev a : Text
a = b'a' ∷ []

abbrev b : Text
b = b'b' ∷ []

abbrev c : Text
c = b'c' ∷ []

abbrev in_a : Text → Text
in_a name = b'a' ∷ b'/' ∷ name

abbrev named : Text → Dirent
named name = record { inum = 7; name = name ++ 0 ∷ 0 ∷ [] }

abbrev removed : Dirent
removed = record { inum = 0; name = b'x' ∷ 0 ∷ [] }

abbrev small : Files
small = record {
  dirsiz = 14;
  opens = λ p. true;
  fstat = λ p.
      if same_text p (in_a b)
      then some file
      else if same_text p (in_a (c ++ b'/' ∷ b))
      then some file
      else some directory;
  dirents = λ p.
      if same_text p a then removed ∷ named (b'.' ∷ []) ∷ named b ∷ named c ∷ [] else named b ∷ [];
  stat = λ p.
      if same_text p (in_a b)
      then some file
      else if same_text p (in_a (c ++ b'/' ∷ b))
      then some file
      else some directory;
  after = λ t. [];
  at_null = [];
}

both_files : find 3 small a b ≡ some (found (in_a b) ∷ found (in_a (c ++ b'/' ∷ b)) ∷ [])
unfolding find find_opened find_loop visit getname count_name fmtname after_slash
both_files = refl
