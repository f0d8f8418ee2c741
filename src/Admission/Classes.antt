-- ===== src/Admission/Classes.antt =====
-- Request classes and the policy's admission half (internal/leader/admission_classes.go).
-- A text is its list of code points here, since the code folds case and trims space.
-- float64 is the parameter `Floats`: a share, its range test and `int(share*float64(n))`, with what
-- IEEE arithmetic gives for a factor between 0 and 1 and a count up to 2 ^ 53.
pub mod Laws
use opod_core.Base.{
  ℕ, ◌+◌, ◌/◌, ◌≤◌, ◌<◌, ◌≡◌, refl, Bool, true, false, ◌&&◌, ◌||◌, List, [], ◌∷◌, Option, none,
  some, arith, if◌then◌else◌, ◌==◌, ltb, leb, max, ℤ, clip,
}

-- The classes, highest first.
pub data Class : Type 0 where
  critical standard sheddable : Class

abbrev pub rank : Class → ℕ
rank critical = 0
rank standard = 1
rank sheddable = 2

abbrev pub same_class : Class → Class → Bool
same_class c d = rank c == rank d

-- An array `[numClasses]A`.
pub record PerClass {ℓ} (A : Type ℓ) : Type ℓ where
  pub of_critical : A
  pub of_standard : A
  pub of_sheddable : A

module _ {ℓ} {A : Type ℓ} where
  abbrev pub at : PerClass A → Class → A
  at p critical = p.of_critical
  at p standard = p.of_standard
  at p sheddable = p.of_sheddable

  abbrev pub put : PerClass A → Class → A → PerClass A
  put p critical a = record p { of_critical = a }
  put p standard a = record p { of_standard = a }
  put p sheddable a = record p { of_sheddable = a }

  abbrev pub every : A → PerClass A
  every a = record { of_critical = a; of_standard = a; of_sheddable = a }

-- What holds of every entry, and of the one written, holds of every entry after the write.
pub at-put {ℓ κ} :
    {A : Type ℓ} (P : Class → A → Type κ) (b : PerClass A) (d : Class) (a : A)
    → ((c : Class) → P c (at b c))
    → P d a
    → (c : Class) → P c (at (put b d a) c)
at-put P b critical a h k critical = k
at-put P b critical a h k standard = h standard
at-put P b critical a h k sheddable = h sheddable
at-put P b standard a h k critical = h critical
at-put P b standard a h k standard = k
at-put P b standard a h k sheddable = h sheddable
at-put P b sheddable a h k critical = h critical
at-put P b sheddable a h k standard = h standard
at-put P b sheddable a h k sheddable = k

pub at-put_above {ℓ} :
    {A : Type ℓ} (b : PerClass A) (d : Class) (a : A) (c : Class)
    → rank c < rank d
    → at (put b d a) c ≡ at b c
at-put_above b critical a critical h = absurd (omega arith)
at-put_above b critical a standard h = refl
at-put_above b critical a sheddable h = refl
at-put_above b standard a critical h = refl
at-put_above b standard a standard h = absurd (omega arith)
at-put_above b standard a sheddable h = refl
at-put_above b sheddable a critical h = refl
at-put_above b sheddable a standard h = refl
at-put_above b sheddable a sheddable h = absurd (omega arith)

pub at-put_self {ℓ} : {A : Type ℓ} (b : PerClass A) (d : Class) (a : A) → at (put b d a) d ≡ a
at-put_self b critical a = refl
at-put_self b standard a = refl
at-put_self b sheddable a = refl

-- `unicode.IsSpace`.
unfoldable pub is_space : ℕ → Bool
is_space c =
    (leb 9 c && leb c 13)
    || c == 32
    || c == 0x85
    || c == 0xa0
    || c == 0x1680
    || (leb 0x2000 c && leb c 0x200a)
    || c == 0x2028
    || c == 0x2029
    || c == 0x202f
    || c == 0x205f
    || c == 0x3000

-- `unicode.ToLower` as far as it can give an ASCII letter: two code points beyond ASCII do.
unfoldable pub lower : ℕ → ℕ
lower c =
    if leb 65 c && leb c 90
    then c + 32
    else if c == 0x130
    then 0x69
    else if c == 0x212a
    then 0x6b
    else c

unfoldable pub trim_left : List ℕ → List ℕ
unfolding is_space
trim_left [] = []
trim_left (c ∷ s) = let rest = trim_left s in if is_space c then rest else c ∷ s

-- Drops the space at the end.
unfoldable pub trim_right : List ℕ → List ℕ
unfolding is_space
trim_right [] = []
trim_right (c ∷ s) = ended c (trim_right s)
  where
    ended : ℕ → List ℕ → List ℕ
    ended c [] = if is_space c then [] else c ∷ []
    ended c (d ∷ r) = c ∷ d ∷ r

abbrev pub same_text : List ℕ → List ℕ → Bool
same_text [] [] = true
same_text (c ∷ s) (d ∷ t) = c == d && same_text s t
same_text _ _ = false

unfoldable pub fold_case : List ℕ → List ℕ
unfolding lower
fold_case [] = []
fold_case (c ∷ s) = lower c ∷ fold_case s

abbrev pub critical_name : List ℕ
critical_name = b'c' ∷ b'r' ∷ b'i' ∷ b't' ∷ b'i' ∷ b'c' ∷ b'a' ∷ b'l' ∷ []

abbrev standard_name : List ℕ
standard_name = b's' ∷ b't' ∷ b'a' ∷ b'n' ∷ b'd' ∷ b'a' ∷ b'r' ∷ b'd' ∷ []

abbrev pub sheddable_name : List ℕ
sheddable_name = b's' ∷ b'h' ∷ b'e' ∷ b'd' ∷ b'd' ∷ b'a' ∷ b'b' ∷ b'l' ∷ b'e' ∷ []

abbrev class_named : List ℕ → Option Class
class_named s =
    if same_text s critical_name
    then some critical
    else if same_text s standard_name
    then some standard
    else if same_text s sheddable_name
    then some sheddable
    else none

unfoldable pub parse_class : List ℕ → Option Class
unfolding fold_case trim_left trim_right
parse_class name = class_named (fold_case (trim_left (trim_right name)))

abbrev pub or_standard : Option Class → Class
or_standard none = standard
or_standard (some c) = c

-- The header lowers the key's class and never raises it.
abbrev pub lowered : Class → Option Class → Class
lowered c none = c
lowered c (some h) = if ltb (rank c) (rank h) then h else c

unfoldable pub effective_class : List ℕ → List ℕ → Class
effective_class key_class header =
    lowered (or_standard (parse_class key_class)) (parse_class header)

-- 2 ^ 53: up to it `float64(n)` is n.
abbrev pub exact_end : ℕ
exact_end = 9007199254740992

pub record Floats : Type 1 where
  pub Share : Type 0
  pub one : Share
  pub quarter : Share
  pub in_unit : Share → Bool  -- 0 < s && s <= 1
  pub floor_mul : Share → ℕ → ℕ  -- int(s * float64(n))
  pub one-in_unit : in_unit one ≡ true
  pub quarter-in_unit : in_unit quarter ≡ true
  pub floor_mul-one : (n : ℕ) → n ≤ exact_end → floor_mul one n ≡ n
  pub floor_mul-quarter : (n : ℕ) → n ≤ exact_end → floor_mul quarter n ≡ n / 4
  pub floor_mul-le : (s : Share) (n : ℕ) → n ≤ exact_end → in_unit s ≡ true → floor_mul s n ≤ n

module _ (f : Floats) where
  open f use {Share, one, quarter, in_unit, floor_mul}

  -- pkg/adminapi's `PolicyAdmissionClass` and `PolicyAdmission`.
  pub record PolicyClass : Type 0 where
    pub name : List ℕ
    pub hold_ms : ℤ
    pub max_held : ℤ
    pub max_share : Share

  pub record Policy : Type 0 where
    pub hold_ms : ℤ
    pub max_held : ℤ
    pub classes : List PolicyClass

  pub record ClassConfig : Type 0 where
    pub classed : Bool
    pub hold_ms : PerClass ℕ
    pub max_held : PerClass ℕ  -- 0 = no cap of the class's own
    pub max_share : PerClass Share
    pub total : ℕ

  abbrev pub default_max_held : ℕ
  default_max_held = 64

  unfoldable pub class_default_share : PerClass Share
  class_default_share = record { of_critical = one; of_standard = one; of_sheddable = quarter }

  -- One listed class, under the rank its name has.
  unfoldable pub set_class : Class → PolicyClass → ClassConfig → ClassConfig
  unfolding class_default_share
  set_class r c cfg = record cfg {
    hold_ms = put cfg.hold_ms r (clip c.hold_ms);
    max_held = put cfg.max_held r (clip c.max_held);
    max_share =
        put cfg.max_share r (if in_unit c.max_share then c.max_share else at class_default_share r);
  }

  abbrev pub set_if_class : Option Class → PolicyClass → ClassConfig → ClassConfig
  set_if_class none c cfg = cfg
  set_if_class (some r) c cfg = set_class r c cfg

  -- The loop over `p.Classes`.
  unfoldable pub apply_classes : List PolicyClass → ClassConfig → ClassConfig
  apply_classes [] cfg = cfg
  apply_classes (c ∷ cs) cfg = apply_classes cs (set_if_class (parse_class c.name) c cfg)

  abbrev pub is_nonempty : List PolicyClass → Bool
  is_nonempty [] = false
  is_nonempty (c ∷ cs) = true

  unfoldable pub new_class_config : Policy → ClassConfig
  unfolding class_default_share apply_classes set_class
  new_class_config p = apply_classes p.classes (record {
    classed = is_nonempty p.classes;
    hold_ms = every (clip p.hold_ms);
    max_held = every 0;
    max_share = if is_nonempty p.classes then class_default_share else every one;
    total = if clip p.max_held == 0 then default_max_held else clip p.max_held;
  })

  abbrev pub class_of : ClassConfig → Class → Class
  class_of cfg c = if cfg.classed then c else standard

  unfoldable pub share_cap : ClassConfig → Class → ℕ → ℕ
  share_cap cfg class slots = max 1 (floor_mul (at cfg.max_share class) slots)
