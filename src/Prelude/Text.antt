-- ===== src/Prelude/Text.antt =====
-- Texts as lists of code points, and what the program uses of Go's `strings` and `strconv`.
pub mod Decimal
use Prim.Native.Char.{code}
use chantools.Prelude.{
  ℕ, String, List, [], ◌∷◌, ◌++◌, Bool, true, false, ◌&&◌, ◌||◌, ◌==◌, leb, if◌then◌else◌, ◌≡◌,
  refl, ◌↔◌, ◌≢◌, arith, All, append-nil, append_assoc,
}

abbrev pub Text : Type 0
Text = List ℕ

abbrev pub codes : String → Text
codes String.[] = []
codes (String.◌∷◌ c s) = code c ∷ codes s

-- `s == t` on Go strings.
unfoldable pub text_eq : Text → Text → Bool
text_eq [] [] = true
text_eq [] (_ ∷ _) = false
text_eq (_ ∷ _) [] = false
text_eq (c ∷ s) (d ∷ t) = c == d && text_eq s t

pub text_eq_sound : (s t : Text) → text_eq s t ≡ true → s ≡ t
unfolding text_eq
text_eq_sound [] [] h = refl
text_eq_sound [] (_ ∷ _) h = cc
text_eq_sound (_ ∷ _) [] h = cc
text_eq_sound (c ∷ s) (d ∷ t) h = ground (arith, text_eq_sound s t)

pub text_eq_refl : (s : Text) → text_eq s s ≡ true
unfolding text_eq
text_eq_refl [] = refl
text_eq_refl (c ∷ s) = ground (arith, text_eq_refl s)

pub text_eq_iff : (s t : Text) → (text_eq s t ≡ true) ↔ (s ≡ t)
text_eq_iff s t = (text_eq_sound s t, λ e. rw e (text_eq_refl t))

-- `strings.Contains(s, c)` for a text of one character.
unfoldable pub contains : ℕ → Text → Bool
contains c [] = false
contains c (x ∷ s) = x == c || contains c s

push : ℕ → List Text → List Text
push x [] = (x ∷ []) ∷ []
push x (p ∷ ps) = (x ∷ p) ∷ ps

-- `strings.Split(s, c)` for a separator of one character.
unfoldable pub split : ℕ → Text → List Text
unfolding push
split c [] = [] ∷ []
split c (x ∷ s) = let rest = split c s in if x == c then [] ∷ rest else push x rest

abbrev pub Lacks : ℕ → Text → Type 0
Lacks c = All (λ x. x ≢ c)

pub split-Lacks : (c : ℕ) (s : Text) → Lacks c s → split c s ≡ s ∷ []
unfolding split
split-Lacks c [] h = refl
split-Lacks c (x ∷ s) (hx, hs) = ground (arith, split-Lacks c s hs)

-- A separator ends the first part.
pub split_at_sep : (c : ℕ) (s t : Text) → Lacks c s → split c (s ++ c ∷ t) ≡ s ∷ split c t
unfolding split
split_at_sep c [] t h = ground arith
split_at_sep c (x ∷ s) t (hx, hs) = ground (arith, split_at_sep c s t hs)

-- `strings.HasPrefix`, the prefix first.
unfoldable pub has_prefix : Text → Text → Bool
has_prefix [] s = true
has_prefix (c ∷ cs) [] = false
has_prefix (c ∷ cs) (x ∷ s) = x == c && has_prefix cs s

-- `strings.Contains`, the part first.
unfoldable pub contains_text : Text → Text → Bool
contains_text part [] = has_prefix part []
contains_text part (x ∷ s) = has_prefix part (x ∷ s) || contains_text part s

pub contains-Lacks : (c : ℕ) (s : Text) → Lacks c s → contains c s ≡ false
unfolding contains
contains-Lacks c [] h = refl
contains-Lacks c (x ∷ s) (hx, hs) = ground (arith, contains-Lacks c s hs)

pub contains_at_end : (c : ℕ) (s : Text) → contains c (s ++ c ∷ []) ≡ true
unfolding contains
contains_at_end c [] = ground arith
contains_at_end c (x ∷ s) = ground (arith, contains_at_end c s)

-- `unicode.IsSpace`.
unfoldable pub is_space : ℕ → Bool
is_space c =
    (leb 9 c && leb c 13)
    || c == 32
    || c == 0x85
    || c == 0xA0
    || c == 0x1680
    || (leb 0x2000 c && leb c 0x200a)
    || c == 0x2028
    || c == 0x2029
    || c == 0x202f
    || c == 0x205f
    || c == 0x3000

trim_left : (ℕ → Bool) → Text → Text
trim_left p [] = []
trim_left p (x ∷ s) = if p x then trim_left p s else x ∷ s

-- Whether every character passes: the rest of the text is trimmed.
all_pass : (ℕ → Bool) → Text → Bool
all_pass p [] = true
all_pass p (x ∷ s) = p x && all_pass p s

trim_end : (ℕ → Bool) → Text → Text
unfolding all_pass
trim_end p [] = []
trim_end p (x ∷ s) = if all_pass p (x ∷ s) then [] else x ∷ trim_end p s

-- `strings.TrimRight(s, c)` for a text of one character.
unfoldable pub trim_right : ℕ → Text → Text
unfolding trim_end
trim_right c s = trim_end (λ x. x == c) s

-- `strings.TrimSpace`.
unfoldable pub trim_space : Text → Text
unfolding trim_left trim_end is_space
trim_space s = trim_end is_space (trim_left is_space s)

all_pass_last : (p : ℕ → Bool) (s : Text) (c : ℕ) → p c ≡ false → all_pass p (s ++ c ∷ []) ≡ false
unfolding all_pass
all_pass_last p [] c h = ground arith
all_pass_last p (x ∷ s) c h = ground (arith, all_pass_last p s c h)

-- A text whose last character stays is not trimmed at its end.
trim_end_last :
    (p : ℕ → Bool) (s : Text) (c : ℕ) → p c ≡ false → trim_end p (s ++ c ∷ []) ≡ s ++ c ∷ []
unfolding trim_end
trim_end_last p [] c h = ground arith
trim_end_last p (x ∷ s) c h = ground (arith, all_pass_last p (x ∷ s) c h, trim_end_last p s c h)

all_pass_inner :
    (p : ℕ → Bool) (s : Text) (c d : ℕ) → p c ≡ false → all_pass p (s ++ c ∷ d ∷ []) ≡ false
unfolding all_pass
all_pass_inner p [] c d h = ground arith
all_pass_inner p (x ∷ s) c d h = ground (arith, all_pass_inner p s c d h)

-- A trimmed character behind one that stays is cut.
trim_end_run :
    (p : ℕ → Bool) (s : Text) (c d : ℕ)
    → p c ≡ false
    → p d ≡ true
    → trim_end p (s ++ c ∷ d ∷ []) ≡ s ++ c ∷ []
unfolding trim_end
trim_end_run p [] c d h k = ground arith
trim_end_run p (x ∷ s) c d h k =
    ground (arith, all_pass_inner p (x ∷ s) c d h, trim_end_run p s c d h k)

pub trim_right_mark :
    (s : Text) (c d : ℕ) → c ≢ d → trim_right d ((s ++ c ∷ []) ++ d ∷ []) ≡ s ++ c ∷ []
unfolding trim_right
trim_right_mark s c d h =
    rw append_assoc (trim_end_run (λ x. x == d) s c d (ground arith) (ground arith))

-- Text that begins and ends with other characters is not trimmed by `TrimSpace`.
pub trim_space_id :
    (b : ℕ) (s : Text) (c : ℕ)
    → is_space b ≡ false
    → is_space c ≡ false
    → trim_space (b ∷ s ++ c ∷ []) ≡ b ∷ s ++ c ∷ []
trim_space_id b s c h k = unfold trim_space trim_left in rw h (trim_end_last is_space (b ∷ s) c k)
