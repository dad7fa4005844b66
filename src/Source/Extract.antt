-- ===== src/Source/Extract.antt =====
-- Extract and writeFile of internal/source/extract.go. archive/tar and compress/gzip are the list of
-- entries that they yield; the disk answers each call by any function of the calls before it.
pub mod Accepted
pub mod Bounds
pub mod Inside
use Prim.Native.Nat.{bit_or}
use deployer.Base.{
  Text, List, Bool, Option, some, none, true, false, [], ◌∷◌, if◌then◌else◌, not, ◌&&◌, ◌||◌, ◌==◌,
  ltb, ◌+◌, ◌-◌, ◌%◌, min, text_eq, ℕ, any,
}
use deployer.Source.Paths.{safe_path}

-- header.Typeflag.
pub data Kind : Type 0 where
  dir reg : Kind
  other : ℕ → Kind

-- A header, and the number of bytes of the body behind it.
pub record Entry : Type 0 where
  pub kind : Kind
  pub name : Text
  pub mode : ℕ
  pub size : ℕ

-- What the readers yield: whether the stream starts as gzip, the entries, and whether they end with
-- io.EOF and not with an error.
pub record Archive : Type 0 where
  pub is_gzip : Bool
  pub entries : List Entry
  pub ends : Bool

pub record Limits : Type 0 where
  pub max_files : ℕ
  pub max_bytes : ℕ

-- The calls that write, with their answers.
pub data Step : Type 0 where
  made_dir : Text → ℕ → Bool → Step
  -- MkdirAll of the directory that holds the path.
  made_parent_of : Text → Bool → Step
  created : Text → ℕ → Bool → Step
  copied : Text → ℕ → Step

abbrev pub Trace : Type 0
Trace = List Step

pub record Disk : Type 0 where
  pub mkdir_all : Trace → Text → Bool
  pub opens : Trace → Text → Bool
  -- An error of the copy, after so many bytes.
  pub breaks_after : Trace → Text → Option ℕ
  pub closes : Trace → Text → Bool

-- A nil error, one that wraps ErrRejected, and any other.
pub data Outcome : Type 0 where
  accepted rejected faulted : Outcome

pub data Fate : Type 0 where
  wrote : ℕ → Fate
  ended : Outcome → Fate

abbrev pub exists_on : Text → Trace → Bool
exists_on p [] = false
exists_on p (created q mode true ∷ tr) = text_eq p q || exists_on p tr
exists_on p (made_dir q mode true ∷ tr) = text_eq p q || exists_on p tr
exists_on p (step ∷ tr) = exists_on p tr

-- mode & permMask | dirPerm, and the same with filePerm: 0o777 are the low nine bits.
unfoldable pub dir_mode : ℕ → ℕ
dir_mode mode = bit_or (mode % 512) 493

unfoldable pub file_mode : ℕ → ℕ
file_mode mode = bit_or (mode % 512) 420

module _ (d : Disk) where
  -- With O_EXCL.
  abbrev pub opened : Text → Trace → Bool
  opened p tr = not (exists_on p tr) && d.opens tr p

  -- The switch after the copy, whose error comes first.
  unfoldable pub close_file : Text → ℕ → ℕ → Bool → Trace → Fate × Trace
  close_file target remaining written broke tr =
      if broke
      then (ended faulted, tr)
      else if not (d.closes tr target)
      then (ended faulted, tr)
      else if ltb remaining written
      then (ended rejected, tr)
      else (wrote written, tr)

  -- io.Copy of a LimitReader of one byte more than what remains.
  unfoldable pub copy_file : Text → ℕ → ℕ → Option ℕ → Trace → Fate × Trace
  unfolding close_file
  copy_file target remaining size none tr =
      close_file target remaining (min size (remaining + 1)) false
        (copied target (min size (remaining + 1)) ∷ tr)
  copy_file target remaining size (some n) tr =
      close_file target remaining (min n (min size (remaining + 1))) true
        (copied target (min n (min size (remaining + 1))) ∷ tr)

  unfoldable pub open_file : Text → ℕ → ℕ → Bool → Trace → Fate × Trace
  unfolding copy_file
  open_file target remaining size false tr = (ended rejected, tr)
  open_file target remaining size true tr =
      copy_file target remaining size (d.breaks_after tr target) tr

  unfoldable pub create_file : Text → ℕ → ℕ → ℕ → Bool → Trace → Fate × Trace
  unfolding open_file
  create_file target mode remaining size false tr = (ended faulted, tr)
  create_file target mode remaining size true tr =
      open_file target remaining size (opened target tr)
        (created target mode (opened target tr) ∷ tr)

  unfoldable pub write_file : Text → ℕ → ℕ → ℕ → Trace → Fate × Trace
  unfolding create_file
  write_file target mode remaining size tr =
      if remaining == 0
      then (ended rejected, tr)
      else create_file target mode remaining size (d.mkdir_all tr target)
          (made_parent_of target (d.mkdir_all tr target) ∷ tr)

  unfoldable pub make_dir : Text → ℕ → Bool → Trace → Fate × Trace
  make_dir target mode ok tr =
      ((if ok then wrote 0 else ended faulted), made_dir target mode ok ∷ tr)

  -- The switch on the type of an entry whose name was accepted.
  unfoldable pub place : Kind → Text → ℕ → ℕ → ℕ → Trace → Fate × Trace
  unfolding write_file make_dir dir_mode file_mode
  place dir target mode size remaining tr =
      make_dir target (dir_mode mode) (d.mkdir_all tr target) tr
  place reg target mode size remaining tr = write_file target (file_mode mode) remaining size tr
  place (other flag) target mode size remaining tr = (ended rejected, tr)

  unfoldable pub place_at : Option Text → Entry → ℕ → Trace → Fate × Trace
  unfolding place
  place_at none e remaining tr = (ended rejected, tr)
  place_at (some target) e remaining tr = place e.kind target e.mode e.size remaining tr

  abbrev pub onward : Fate × Trace → (ℕ → Trace → Outcome × Trace) → Outcome × Trace
  onward (wrote n, tr) f = f n tr
  onward (ended x, tr) f = (x, tr)

  module _ (root : Text) (lim : Limits) where
    -- One round of the loop; `files` has been raised.
    unfoldable pub round : ℕ → ℕ → Entry → Trace → Fate × Trace
    unfolding place_at safe_path
    round files remaining e tr =
        if ltb lim.max_files files
        then (ended rejected, tr)
        else place_at (safe_path root e.name) e remaining tr

    unfoldable pub unpack : Bool → ℕ → ℕ → List Entry → Trace → Outcome × Trace
    unfolding round
    unpack ends files remaining [] tr = ((if ends then accepted else rejected), tr)
    unpack ends files remaining (e ∷ es) tr =
        onward (round (files + 1) remaining e tr)
          (λ n tr'. unpack ends (files + 1) (remaining - n) es tr')

-- `root` is what filepath.Abs made of the destination.
unfoldable pub extract : Disk → Text → Limits → Archive → Outcome × Trace
unfolding unpack
extract d root lim a =
    if not a.is_gzip then (rejected, []) else unpack d root lim a.ends 0 lim.max_bytes a.entries []
