-- ===== src/Find.antt =====
-- lab utilities/find.c. A text is the list of its bytes before the null; the file system and malloc
-- are elsewhere, and what they answer is an argument.
use lab_utilities.Base.{
  ℕ, zero, suc, ◌+◌, ◌-◌, Bool, true, false, ◌||◌, ◌&&◌, List, [], ◌∷◌, ◌++◌, Option, none, some,
  ltb, leb, ◌==◌, if◌then◌else◌, length, take, replicate,
}

abbrev pub Text : Type 0
Text = List ℕ

pub data Kind : Type 0 where
  directory : Kind
  file : Kind
  device : Kind

pub record Dirent : Type 0 where
  pub inum : ℕ
  pub name : List ℕ

-- DIRSIZ, what open, fstat, read and stat answer for a path, the bytes that follow a buffer of malloc
-- up to the first null, and the bytes at address 0.
pub record Files : Type 0 where
  pub dirsiz : ℕ
  pub opens : Text → Bool
  pub fstat : Text → Option Kind
  pub dirents : Text → List Dirent
  pub stat : Text → Option Kind
  pub after : Text → Text
  pub at_null : Text

-- What find writes.
pub data Line : Type 0 where
  found : Text → Line
  cannot_open : Text → Line
  cannot_fstat : Text → Line
  too_long : Line
  cannot_stat : Text → Line

-- strcmp(s, t) == 0
abbrev pub same_text : Text → Text → Bool
same_text [] [] = true
same_text [] (d ∷ t) = false
same_text (c ∷ s) [] = false
same_text (c ∷ s) (d ∷ t) = (c == d) && same_text s t

-- The bytes of an array up to the first null.
abbrev pub up_to_null : List ℕ → Text
up_to_null [] = []
up_to_null (c ∷ cs) = if c == 0 then [] else c ∷ up_to_null cs

abbrev or_rest : Option Text → ℕ → Text → Option Text
or_rest (some found_later) c cs = some found_later
or_rest none c cs = if c == b'/' then some cs else none

-- The backward loop of fmtname: the text after the last slash. What stands after a byte is looked
-- at before the byte.
unfoldable pub after_slash : Text → Option Text
after_slash [] = none
after_slash (c ∷ cs) = or_rest (after_slash cs) c cs

abbrev pub last_name : Option Text → Text → Text
last_name none path = path
last_name (some p) path = p

unfoldable pub fmtname : ℕ → Text → Text
fmtname dirsiz path =
    let p = last_name (after_slash path) path in
    if leb dirsiz (length p) then p else p ++ replicate (dirsiz - length p) b' '

-- The count of getname over the first bytes of `path`.
unfoldable pub count_name : List ℕ → ℕ
count_name [] = 0
count_name (c ∷ cs) = if c == b' ' then count_name cs else suc (count_name cs)

-- The buffer that getname fills; it has no null at its end.
unfoldable pub getname : ℕ → Text → List ℕ
getname dirsiz path = take (count_name (take dirsiz path)) path

-- `getname(fmtname(buf))`, read as a text.
abbrev pub entry_name : Files → Text → Text
entry_name fs buf = let name = getname fs.dirsiz (fmtname fs.dirsiz buf) in name ++ fs.after name

-- `path`, a slash and a name
abbrev pub join : Text → Text → Text
join path name = path ++ b'/' ∷ name

-- What `buf` holds for an entry.
abbrev pub entry_path : Files → Text → Dirent → Text
entry_path fs path de = join path (up_to_null (take fs.dirsiz de.name))

abbrev dot : Text
dot = b'.' ∷ []

abbrev dot_dot : Text
dot_dot = b'.' ∷ b'.' ∷ []

abbrev pub is_dots : Text → Bool
is_dots name = same_text name dot || same_text name dot_dot

-- The body of the read loop from stat on.
unfoldable pub visit :
    Files → (Text → Option (List Line)) → (path ref buf : Text) → Option Kind → Option (List Line)
visit fs descend path ref buf none = some (cannot_stat buf ∷ [])
visit fs descend path ref buf (some directory) =
    let str = entry_name fs buf in
    let bufl = join path str in
    let below = descend (bufl ++ fs.after bufl) in if is_dots str then some [] else below
visit fs descend path ref buf (some file) =
    if same_text (entry_name fs buf) ref then some (found buf ∷ []) else some []
visit fs descend path ref buf (some device) = some []

abbrev pub both : Option (List Line) → Option (List Line) → Option (List Line)
both none rest = none
both (some xs) none = none
both (some xs) (some ys) = some (xs ++ ys)

unfoldable pub find_loop :
    Files → (Text → Option (List Line)) → (path ref : Text) → List Dirent → Option (List Line)
find_loop fs descend path ref [] = some []
find_loop fs descend path ref (de ∷ des) =
    let buf = entry_path fs path de in
    let here = visit fs descend path ref buf (fs.stat buf) in
    let rest = find_loop fs descend path ref des in if de.inum == 0 then rest else both here rest

-- The switch of find, for the kind of the opened file.
unfoldable pub find_opened :
    Files → (Text → Option (List Line)) → (path ref : Text) → Option Kind → Option (List Line)
find_opened fs descend path ref none = some (cannot_fstat path ∷ [])
find_opened fs descend path ref (some directory) =
    let inside = find_loop fs descend path ref (fs.dirents path) in
    if ltb 512 (length path + 1 + fs.dirsiz + 1) then some (too_long ∷ []) else inside
find_opened fs descend path ref (some file) = some []
find_opened fs descend path ref (some device) = some []

-- find; the fuel is the depth of its calls.
unfoldable pub find : ℕ → Files → (path ref : Text) → Option (List Line)
find zero fs path ref = none
find (suc fuel) fs path ref =
    let inside = find_opened fs (λ p. find fuel fs p ref) path ref (fs.fstat path) in
    if fs.opens path then inside else some (cannot_open path ∷ [])

-- main. With one argument argv[2] is null.
unfoldable pub find_main : ℕ → Files → List Text → Option (List Line)
find_main fuel fs [] = some []
find_main fuel fs (program ∷ []) = some []
find_main fuel fs (program ∷ path ∷ []) = find fuel fs path fs.at_null
find_main fuel fs (program ∷ path ∷ ref ∷ rest) = find fuel fs path ref
