-- ===== src/Datum.antt =====
-- src/common/cali_variant.c and include/caliper/common/Node.h, as the context tree uses them: values with the bytes behind
-- them. A string or a blob stands for its bytes, since nothing writes again to the memory that a value of
-- a node points to. A machine is little-endian.
use caliper.Base.{
  ℕ, zero, suc, ◌+◌, ◌*◌, ◌/◌, ◌%◌, ◌^◌, ◌<◌, ◌≡◌, ltb, ◌==◌, ◌&&◌, if◌then◌else◌, Bool, true,
  false, both_true,
}
use caliper.Base.{
  List, [], ◌∷◌, Option, none, some, take, take_all, length, refl, sym, ap, ◌∙◌, arith,
}
use caliper.Base.Text.{str_eq, str_eq_refl, eq-str_eq}
use caliper.Variant.{AttrType, type_code, size_of}
use native.Mathlib.Nat.{mod-eq_of_lt}
use caliper.Variant.AttrType.{inv, usr, int, uint, string, addr, double, bool, type}

-- The 64 bits of the union, or the bytes of a string or a blob.
pub data Datum : Type 0 where
  inline : AttrType → ℕ → Datum
  bytes : AttrType → List ℕ → Datum

-- The id, the attribute and the data of a node, and `const Node*`; the tail is `parent()`.
pub record DataNode : Type 0 where
  pub id : ℕ
  pub attribute : ℕ
  pub value : Datum

abbrev pub DataPath : Type 0
DataPath = List DataNode

abbrev pub type_of_datum : Datum → AttrType
type_of_datum (inline t n) = t
type_of_datum (bytes t s) = t

abbrev pub datum_size : Datum → ℕ
datum_size (inline t n) = size_of t 0
datum_size (bytes t s) = length s

-- `cali_variant_eq`: the type and the size, then the union or the bytes.
abbrev pub same_value : Datum → Datum → Bool
same_value (inline t n) (inline u m) = (type_code t == type_code u) && (n == m)
same_value (bytes t s) (bytes u r) = (type_code t == type_code u) && str_eq s r
same_value (inline t n) (bytes u r) = false
same_value (bytes t s) (inline u m) = false

-- The lowest `k` bytes of a number, and the number of some bytes.
abbrev pub le_bytes : ℕ → ℕ → List ℕ
le_bytes zero n = []
le_bytes (suc k) n = n % 256 ∷ le_bytes k (n / 256)

abbrev pub le_number : List ℕ → ℕ
le_number [] = 0
le_number (b ∷ bs) = b + 256 * le_number bs

-- The bytes from `data()` on, `size()` of them.
abbrev pub content : Datum → List ℕ
content (inline t n) = le_bytes (size_of t 0) n
content (bytes t s) = s

-- A read of `k` bytes from `data()` on; none is a read through the null pointer or behind the bytes.
abbrev pub load : ℕ → Datum → Option ℕ
load k (inline t n) = if type_code t == 0 then none else some (n % 2 ^ (8 * k))
load k (bytes t s) = if ltb (length s) k then none else some (le_number (take k s))

abbrev pub inline_of : AttrType → Option ℕ → Option Datum
inline_of t none = none
inline_of t (some n) = some (inline t n)

-- `size << 8` in the tag leaves 56 bits of a size.
abbrev pub kept_bytes : List ℕ → List ℕ
kept_bytes s = take (length s % 2 ^ 56) s

-- `cali_make_variant(type, v.data(), v.size())`, where the bytes may have been copied.
abbrev pub make_value : AttrType → Datum → Option Datum
make_value inv v = some (inline inv 0)
make_value usr v = some (bytes usr (kept_bytes (content v)))
make_value string v = some (bytes string (kept_bytes (content v)))
make_value int v = inline_of int (load 4 v)
make_value addr v = inline_of addr (load 8 v)
make_value uint v = inline_of uint (load 8 v)
make_value double v = inline_of double (load 8 v)
make_value bool v = inline_of bool (load 1 v)
make_value type v = inline_of type (load 4 v)

-- A value of a type, as the constructors of `Variant` make them.
abbrev pub HasType : AttrType → Datum → Type 0
HasType inv v = v ≡ inline inv 0
HasType usr v = (s : List ℕ) × (v ≡ bytes usr s) × (length s < 2 ^ 56)
HasType string v = (s : List ℕ) × (v ≡ bytes string s) × (length s < 2 ^ 56)
HasType int v = (n : ℕ) × (v ≡ inline int n) × (n < 2 ^ 32)
HasType addr v = (n : ℕ) × (v ≡ inline addr n) × (n < 2 ^ 64)
HasType uint v = (n : ℕ) × (v ≡ inline uint n) × (n < 2 ^ 64)
HasType double v = (n : ℕ) × (v ≡ inline double n) × (n < 2 ^ 64)
HasType bool v = (n : ℕ) × (v ≡ inline bool n) × (n < 2 ^ 8)
HasType type v = (n : ℕ) × (v ≡ inline type n) × (n < 2 ^ 32)

low : (n m : ℕ) → n < m → n % m ≡ n
low n m h = mod-eq_of_lt h

all_kept : (s : List ℕ) → length s < 2 ^ 56 → kept_bytes s ≡ s
all_kept s h = take_all (length s % 2 ^ 56) s (omega (arith, low (length s) (2 ^ 56) h))

-- A value of the attribute's type is made again from its bytes.
pub make_value-HasType : (t : AttrType) (v : Datum) → HasType t v → make_value t v ≡ some v
make_value-HasType inv v e = ap some (sym e)
make_value-HasType usr v (s, e, h) =
    ap (make_value usr) e ∙ (ap (λ x. some (bytes usr x)) (all_kept s h) ∙ ap some (sym e))
make_value-HasType string v (s, e, h) =
    ap (make_value string) e ∙ (ap (λ x. some (bytes string x)) (all_kept s h) ∙ ap some (sym e))
make_value-HasType int v (n, e, h) =
    ap (make_value int) e ∙ (ap (λ m. some (inline int m)) (low n (2 ^ 32) h) ∙ ap some (sym e))
make_value-HasType addr v (n, e, h) =
    ap (make_value addr) e ∙ (ap (λ m. some (inline addr m)) (low n (2 ^ 64) h) ∙ ap some (sym e))
make_value-HasType uint v (n, e, h) =
    ap (make_value uint) e ∙ (ap (λ m. some (inline uint m)) (low n (2 ^ 64) h) ∙ ap some (sym e))
make_value-HasType double v (n, e, h) =
    ap (make_value double) e
    ∙ (ap (λ m. some (inline double m)) (low n (2 ^ 64) h) ∙ ap some (sym e))
make_value-HasType bool v (n, e, h) =
    ap (make_value bool) e ∙ (ap (λ m. some (inline bool m)) (low n (2 ^ 8) h) ∙ ap some (sym e))
make_value-HasType type v (n, e, h) =
    ap (make_value type) e ∙ (ap (λ m. some (inline type m)) (low n (2 ^ 32) h) ∙ ap some (sym e))

pub same_refl : (v : Datum) → same_value v v ≡ true
same_refl (inline t n) = ground arith
same_refl (bytes t s) =
    let e : type_code t == type_code t ≡ true = ground arith in rw (e, str_eq_refl s) refl

pub same_sym : (v w : Datum) → same_value v w ≡ true → same_value w v ≡ true
same_sym (inline t n) (inline u m) h = ground arith
same_sym (inline t n) (bytes u r) h = cc
same_sym (bytes t s) (inline u m) h = cc
same_sym (bytes t s) (bytes u r) h =
    let (a, b) = both_true (type_code t == type_code u) (str_eq s r) h in
    let e : type_code u == type_code t ≡ true = ground arith in
    let f : str_eq r s ≡ true = ap (str_eq r) (eq-str_eq s r b) ∙ str_eq_refl r in rw (e, f) refl

pub same_trans :
    (u v w : Datum) → same_value u v ≡ true → same_value v w ≡ true → same_value u w ≡ true
same_trans (inline t n) (inline u m) (inline x k) h g = ground arith
same_trans (inline t n) (inline u m) (bytes x q) h g = cc
same_trans (inline t n) (bytes u r) w h g = cc
same_trans (bytes t s) (inline u m) w h g = cc
same_trans (bytes t s) (bytes u r) (inline x k) h g = cc
same_trans (bytes t s) (bytes u r) (bytes x q) h g =
    let (a, b) = both_true (type_code t == type_code u) (str_eq s r) h in
    let (c, d) = both_true (type_code u == type_code x) (str_eq r q) g in
    let e : type_code t == type_code x ≡ true = ground arith in
    let f : str_eq s q ≡ true = ap (str_eq s) (sym (eq-str_eq r q d)) ∙ b in rw (e, f) refl
