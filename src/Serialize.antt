-- ===== src/Serialize.antt =====
-- serialize.h and serialize.c: typed C objects written as text and read back.
-- A buffer is the list of the bytes from the pointer on; past its end it reads as NUL, which is how
-- the callers end it.
pub mod Number
pub mod Skip
pub mod Elements
pub mod Parse
pub mod Digits
pub mod Tables
pub mod Strings
pub mod Signed
pub mod Scalars
pub mod Arrays
pub mod Bounded
pub mod Keys
pub mod Objects
pub mod Entries
pub mod Values
pub mod Api
pub mod Loops
pub mod Memory
pub mod Unsigned
pub mod Skipped
use rt_csp.Base.{
  ℕ, zero, suc, ◌+◌, ◌-◌, ◌≡◌, Bool, true, false, Option, none, some, List, [], ◌∷◌, ◌++◌, ◌==◌,
  if◌then◌else◌, length, take, ℤ, pos, negsuc,
}
use Number.{print_nat, print_int}

-- The types of numbers, SRL_TYPE_BOOLEAN to SRL_TYPE_ULONG.
pub data Scalar : Type 0 where
  boolean char byte ubyte short ushort int uint long ulong : Scalar

-- serialize_format_t, by its `type`, and serialize_object_t as its list of formats with their keys.
-- Offsets in memory are places in a tuple of values. Of the floating types there is one, whose values
-- are known by their text.
mutual
  pub data Format : Type 0 where
    scalar : Scalar → Format
    float : Format
    string : Format
    string_length : ℕ → Format
    object : Formats → Format
    array : Format → Format
    arrlen : ℕ → Format → Format
    hashtable : Bool → Format → Format

  pub data Formats : Type 0 where
    end : Formats
    field : List ℕ → Format → Formats → Formats

abbrev pub scalar_tag : Scalar → ℕ
scalar_tag boolean = b'b'
scalar_tag char = b'c'
scalar_tag byte = b'y'
scalar_tag ubyte = b'Y'
scalar_tag short = b't'
scalar_tag ushort = b'T'
scalar_tag int = b'i'
scalar_tag uint = b'I'
scalar_tag long = b'l'
scalar_tag ulong = b'L'

abbrev pub tag : Format → ℕ
tag (scalar k) = scalar_tag k
tag float = b'd'
tag string = b's'
tag (string_length n) = b'S'
tag (object fs) = b'o'
tag (array f) = b'a'
tag (arrlen n f) = b'A'
tag (hashtable isint f) = b'h'

-- What the memory of a format holds. NULL is `none`. An array of fixed size is its cells and the
-- number of those in use; a hash table its entries, in the order in which they are visited.
abbrev mutual
  pub Value : Format → Type 0
  Value (scalar k) = ℤ
  Value float = List ℕ
  Value string = Option (List ℕ)
  Value (string_length n) = List ℕ
  Value (object fs) = Row fs
  Value (array f) = Option (List (Value f))
  Value (arrlen n f) = ℕ × List (Value f)
  Value (hashtable isint f) = Option (List (List ℕ × Value f))

  pub Row : Formats → Type 0
  Row end = Unit {0}
  Row (field k f fs) = Value f × Row fs

abbrev pub or_empty {ℓ} : {A : Type ℓ} → Option (List A) → List A
or_empty none = []
or_empty (some xs) = xs

-- `%d`, `%u`, `%c` and so on, by the type.
abbrev pub print_scalar : Scalar → ℤ → List ℕ
print_scalar boolean v = (elim v [ pos zero ↦ b'0' | _ ↦ b'1' ]) ∷ []
print_scalar char (pos c) = c ∷ []
print_scalar char (negsuc c) = (255 - c) ∷ []
print_scalar _ v = print_int v

-- Length, a mark, and the bytes.
abbrev pub print_bytes : List ℕ → List ℕ
print_bytes s = print_nat (length s) ++ b':' ∷ s ++ b';' ∷ []

abbrev pub print_key : Bool → List ℕ → List ℕ
print_key true key = b'I' ∷ b':' ∷ key ++ b';' ∷ []
print_key false key = b's' ∷ b':' ∷ print_bytes key

-- The loop over the items of an array.
pub print_items {ℓ} : {A : Type ℓ} → (A → List ℕ) → List A → List ℕ
print_items print [] = []
print_items print (x ∷ xs) = print x ++ print_items print xs

-- `_serialize_foreach_ht` on each entry. The key of an integer table is the text of the number.
pub print_entries {ℓ} : {A : Type ℓ} → Bool → (A → List ℕ) → List (List ℕ × A) → List ℕ
print_entries isint print [] = []
print_entries isint print ((k, x) ∷ xs) =
    print_key isint k ++ print x ++ print_entries isint print xs

-- `serialize_string_ex` and `serialize_string_object_ex`.
unfoldable mutual
  unfolding print_items print_entries

  pub serialize_string_ex : (f : Format) → Value f → List ℕ
  serialize_string_ex (scalar k) v = scalar_tag k ∷ b':' ∷ print_scalar k v ++ b';' ∷ []
  serialize_string_ex float v = b'd' ∷ b':' ∷ v ++ b';' ∷ []
  serialize_string_ex string v = b's' ∷ b':' ∷ print_bytes (or_empty v)
  serialize_string_ex (string_length n) v = b'S' ∷ b':' ∷ print_bytes v
  serialize_string_ex (object fs) v =
      b'o' ∷ b':' ∷ b'{' ∷ serialize_string_object_ex fs v ++ b'}' ∷ []
  serialize_string_ex (array f) v =
      b'a' ∷ b':' ∷ print_nat (length (or_empty v))
      ++ b'[' ∷ print_items (serialize_string_ex f) (or_empty v)
      ++ b']' ∷ []
  serialize_string_ex (arrlen n f) v =
      b'A' ∷ b':' ∷ print_nat v.0
      ++ b'[' ∷ print_items (serialize_string_ex f) (take v.0 v.1)
      ++ b']' ∷ []
  serialize_string_ex (hashtable isint f) v =
      b'h' ∷ b':' ∷ b'(' ∷ print_entries isint (serialize_string_ex f) (or_empty v) ++ b')' ∷ []

  pub serialize_string_object_ex : (fs : Formats) → Row fs → List ℕ
  serialize_string_object_ex end r = []
  serialize_string_object_ex (field k f fs) r =
      print_key false k ++ serialize_string_ex f r.0 ++ serialize_string_object_ex fs r.1
