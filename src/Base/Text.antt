-- ===== src/Base/Text.antt =====
-- Texts are the lists of their bytes, as Go's strings are.
use Prim.Native.Nat.{ℕ, suc, ◌+◌}
use Prim.Native.Char.{code}
use Prim.Native.String.{String}
use mathlib.Core.Path.{◌≡◌, refl, ap, ◌∙◌}
use mathlib.Core.Logic.{◌↔◌, ◌≢◌, inl, inr}
use mathlib.Core.Bool.{Bool, true, false, ◌&&◌, ◌||◌}
use mathlib.Core.Option.{Option, none, some}
use mathlib.Core.List.{List, [], ◌∷◌, ◌++◌, reverse}
use native.Mathlib.Omega.{arith}
use espur.Base.Tests.{leb, ◌==◌, if◌then◌else◌, Bool-cases}
use espur.Base.Lists.{All}

abbrev pub Bytes : Type 0
Bytes = List ℕ

-- The bytes of an ASCII literal.
abbrev pub codes : String → Bytes
codes String.[] = []
codes (String.◌∷◌ c s) = code c ∷ codes s

-- Go's `==` on strings.
unfoldable pub same : Bytes → Bytes → Bool
same [] [] = true
same [] (b ∷ s) = false
same (a ∷ r) [] = false
same (a ∷ r) (b ∷ s) = a == b && same r s

pub same_iff : (r s : Bytes) → (same r s ≡ true) ↔ (r ≡ s)
unfolding same
same_iff [] [] = ground arith
same_iff [] (b ∷ s) = ground arith
same_iff (a ∷ r) [] = ground arith
same_iff (a ∷ r) (b ∷ s) = ground (arith, same_iff r s)

pub same_refl : (s : Bytes) → same s s ≡ true
same_refl s = (same_iff s s).1 refl

pub same_ne : (r s : Bytes) → r ≢ s → same r s ≡ false
same_ne r s h = ground (arith, same_iff r s)

abbrev pub is_empty : Bytes → Bool
is_empty [] = true
is_empty (c ∷ s) = false

-- strings.HasPrefix.
unfoldable pub has_prefix : Bytes → Bytes → Bool
has_prefix s [] = true
has_prefix [] (p ∷ ps) = false
has_prefix (c ∷ s) (p ∷ ps) = c == p && has_prefix s ps

-- strings.HasSuffix.
unfoldable pub has_suffix : Bytes → Bytes → Bool
unfolding has_prefix
has_suffix s p = has_prefix (reverse s) (reverse p)

-- strings.Index: the first position at which `p` stands.
unfoldable pub index : Bytes → Bytes → Option ℕ
unfolding has_prefix
index [] p = if has_prefix [] p then some 0 else none
index (c ∷ s) p =
    let rest = index s p in
    if has_prefix (c ∷ s) p then some 0 else elim rest [ none ↦ none | some i ↦ some (suc i) ]

-- strings.Contains.
unfoldable pub contains : Bytes → Bytes → Bool
unfolding has_prefix
contains [] p = has_prefix [] p
contains (c ∷ s) p = let rest = contains s p in has_prefix (c ∷ s) p || rest

-- White space of one, two and three bytes, as strings.TrimSpace knows it in UTF-8.
is_space : ℕ → Bool
is_space c = c == 0x20 || leb 0x09 c && leb c 0x0d

is_space_pair : ℕ → ℕ → Bool
is_space_pair a b = a == 0xc2 && (b == 0x85 || b == 0xa0)

is_space_triple : ℕ → ℕ → ℕ → Bool
is_space_triple a b c =
    a == 0xe1 && b == 0x9a && c == 0x80
    || a == 0xe2 && b == 0x80 && (leb 0x80 c && leb c 0x8a || c == 0xa8 || c == 0xa9 || c == 0xaf)
    || a == 0xe2 && b == 0x81 && c == 0x9f
    || a == 0xe3 && b == 0x80 && c == 0x80

strip : (ℕ → ℕ → Bool) → (ℕ → ℕ → ℕ → Bool) → Bytes → Bytes
unfolding is_space
strip pair triple [] = []
strip pair triple (a ∷ []) = if is_space a then [] else a ∷ []
strip pair triple (a ∷ b ∷ []) =
    let one = strip pair triple (b ∷ []) in
    if is_space a then one else if pair a b then [] else a ∷ b ∷ []
strip pair triple (a ∷ b ∷ c ∷ s) =
    let one = strip pair triple (b ∷ c ∷ s) in
    let two = strip pair triple (c ∷ s) in
    let three = strip pair triple s in
    if is_space a
    then one
    else if pair a b
    then two
    else if triple a b c
    then three
    else a ∷ b ∷ c ∷ s

unfoldable pub trim_space : Bytes → Bytes
unfolding strip is_space_pair is_space_triple
trim_space s = reverse (
    strip (λ a b. is_space_pair b a) (λ a b c. is_space_triple c b a)
      (reverse (strip is_space_pair is_space_triple s)))

-- strings.Split at one byte; the result is never empty.
push_head : ℕ → List Bytes → List Bytes
push_head c [] = (c ∷ []) ∷ []
push_head c (l ∷ ls) = (c ∷ l) ∷ ls

unfoldable pub split_at : ℕ → Bytes → List Bytes
unfolding push_head
split_at sep [] = [] ∷ []
split_at sep (c ∷ s) = let rest = split_at sep s in if c == sep then [] ∷ rest else push_head c rest

-- strings.Join.
unfoldable pub join : Bytes → List Bytes → Bytes
join sep [] = []
join sep (l ∷ []) = l
join sep (l ∷ m ∷ ls) = l ++ (sep ++ join sep (m ∷ ls))

push_head-join :
    (sep c : ℕ) (ls : List Bytes)
    → ls ≢ []
    → join (sep ∷ []) (push_head c ls) ≡ c ∷ join (sep ∷ []) ls
unfolding join push_head
push_head-join sep c [] h = absurd (h refl)
push_head-join sep c (l ∷ []) h = refl
push_head-join sep c (l ∷ m ∷ ls) h = refl

split_at-ne-nil : (sep : ℕ) (s : Bytes) → split_at sep s ≢ []
unfolding split_at push_head
split_at-ne-nil sep [] = λ e. cc
split_at-ne-nil sep (c ∷ s) = ground (arith, split_at-ne-nil sep s)

join-split_at_cons :
    (sep c : ℕ) (s : Bytes) (rest : List Bytes)
    → rest ≢ []
    → join (sep ∷ []) rest ≡ s
    → join (sep ∷ []) (if c == sep then [] ∷ rest else push_head c rest) ≡ c ∷ s
unfolding join
join-split_at_cons sep c s [] h e = absurd (h refl)
join-split_at_cons sep c s (l ∷ ls) h e = ground (arith, push_head-join sep c (l ∷ ls))

pub join-split_at : (sep : ℕ) (s : Bytes) → join (sep ∷ []) (split_at sep s) ≡ s
unfolding split_at
join-split_at sep [] = unfold join in refl
join-split_at sep (c ∷ s) =
    join-split_at_cons sep c s (split_at sep s) (split_at-ne-nil sep s) (join-split_at sep s)

-- strings.ToLower, as far as the ASCII bytes of its result go: besides the ASCII capitals two other
-- letters, U+0130 and U+212A, have an ASCII lower case.
lower : ℕ → ℕ
lower c = if leb b'A' c && leb c b'Z' then c + 32 else c

unfoldable pub to_lower : Bytes → Bytes
unfolding lower
to_lower [] = []
to_lower (a ∷ []) = lower a ∷ []
to_lower (a ∷ b ∷ []) = if a == 0xc4 && b == 0xb0 then b'i' ∷ [] else lower a ∷ to_lower (b ∷ [])
to_lower (a ∷ b ∷ c ∷ s) =
    let one = lower a ∷ to_lower (b ∷ c ∷ s) in
    let two = b'i' ∷ to_lower (c ∷ s) in
    let three = b'k' ∷ to_lower s in
    if a == 0xc4 && b == 0xb0
    then two
    else if a == 0xe2 && b == 0x84 && c == 0xaa
    then three
    else one

pub has_prefix-append : (r s p : Bytes) → has_prefix r p ≡ true → has_prefix (r ++ s) p ≡ true
unfolding has_prefix
has_prefix-append r s [] h = refl
has_prefix-append [] s (q ∷ p) h = cc
has_prefix-append (c ∷ r) s (q ∷ p) h = ground (arith, has_prefix-append r s p)

pub contains-append_right : (r s p : Bytes) → contains s p ≡ true → contains (r ++ s) p ≡ true
unfolding contains
contains-append_right [] s p h = h
contains-append_right (c ∷ r) s p h = ground (arith, contains-append_right r s p h)

cons_split :
    (sep c : ℕ) (s : Bytes) (l : Bytes) (ls : List Bytes)
    → c ≢ sep
    → split_at sep s ≡ l ∷ ls
    → split_at sep (c ∷ s) ≡ (c ∷ l) ∷ ls
unfolding split_at push_head
cons_split sep c s l ls h e = ground arith

pub split_at-plain : (sep : ℕ) (l : Bytes) → All (λ c. c ≢ sep) l → split_at sep l ≡ l ∷ []
split_at-plain sep [] h = unfold split_at in refl
split_at-plain sep (c ∷ l) h = cons_split sep c l l [] h.0 (split_at-plain sep l h.1)

split_at-append_sep :
    (sep : ℕ) (l s : Bytes)
    → All (λ c. c ≢ sep) l
    → split_at sep (l ++ sep ∷ s) ≡ l ∷ split_at sep s
split_at-append_sep sep [] s h = unfold split_at in ground arith
split_at-append_sep sep (c ∷ l) s h =
    cons_split sep c (l ++ sep ∷ s) l (split_at sep s) h.0 (split_at-append_sep sep l s h.1)

-- Joining and splitting again gives the same parts, if there is one and none holds the separator.
pub split_at-join :
    (sep : ℕ) (l : Bytes) (ls : List Bytes)
    → All (λ m. All (λ c. c ≢ sep) m) (l ∷ ls)
    → split_at sep (join (sep ∷ []) (l ∷ ls)) ≡ l ∷ ls
unfolding join
split_at-join sep l [] h = split_at-plain sep l h.0
split_at-join sep l (m ∷ ls) h =
    split_at-append_sep sep l (join (sep ∷ []) (m ∷ ls)) h.0
    ∙ ap (◌∷◌ l) (split_at-join sep m ls h.1)

push_head-append :
    (c : ℕ) (ls ms : List Bytes) → ls ≢ [] → push_head c (ls ++ ms) ≡ push_head c ls ++ ms
unfolding push_head
push_head-append c [] ms h = absurd (h refl)
push_head-append c (l ∷ ls) ms h = refl

-- Two texts with the separator between them split into the parts of both.
pub split_at-append :
    (sep : ℕ) (r s : Bytes) → split_at sep (r ++ sep ∷ s) ≡ split_at sep r ++ split_at sep s
unfolding split_at
split_at-append sep [] s = ground arith
split_at-append sep (c ∷ r) s = elim (Bool-cases (c == sep)) [
  | inl e ↦ rw e (ap (◌∷◌ []) (split_at-append sep r s))
  | inr e ↦ rw e (
      ap (push_head c) (split_at-append sep r s)
      ∙ push_head-append c (split_at sep r) (split_at sep s) (split_at-ne-nil sep r))
]

lower_newline : (s : Bytes) → to_lower (0x0a ∷ s) ≡ 0x0a ∷ to_lower s
unfolding to_lower
lower_newline [] = refl
lower_newline (b ∷ []) = refl
lower_newline (b ∷ c ∷ s) = refl

lower_before_newline :
    (a : ℕ) (s : Bytes) → to_lower (a ∷ 0x0a ∷ s) ≡ to_lower (a ∷ []) ++ to_lower (0x0a ∷ s)
unfolding to_lower
lower_before_newline a [] = ground arith
lower_before_newline a (c ∷ s) = ground arith

-- A newline parts the lower case of two texts.
pub to_lower-append : (r s : Bytes) → to_lower (r ++ 0x0a ∷ s) ≡ to_lower r ++ 0x0a ∷ to_lower s
unfolding to_lower
to_lower-append [] s = lower_newline s
to_lower-append (a ∷ []) s =
    lower_before_newline a s ∙ ap (◌++◌ (to_lower (a ∷ []))) (lower_newline s)
to_lower-append (a ∷ b ∷ []) s = ground (arith, lower_newline s, lower_before_newline b s)
to_lower-append (a ∷ b ∷ c ∷ r) s =
    ground (arith, to_lower-append (b ∷ c ∷ r) s, to_lower-append (c ∷ r) s, to_lower-append r s)
