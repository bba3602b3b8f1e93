-- ===== src/Tenant/Hostname/Labels.antt =====
-- The host names that are accepted are dotted lists of labels.
use shearix_platform.Shared.{
  ℕ, ◌≤◌, String, Bool, true, false, ◌&&◌, not, ◌≡◌, refl, sym, ap, ◌∙◌, inl, inr, List, [], ◌∷◌,
  ◌++◌, ◌==◌, leb, leb→le, all, codes, All, ==_iff, Bool-cases, Result, ok, err, arith,
  if◌then◌else◌,
}
use shearix_platform.Platform.Library.{Library}
use shearix_platform.Tenant.Settings.{InputError, invalid_input}
use shearix_platform.Tenant.Hostname.{
  bytes, split, is_label, is_label_char, is_hostname, without_last_dot, normalize_hostname,
}

-- A letter in lower case, a digit or a dash.
pub data IsLabelChar (c : ℕ) : Type 0 where
  letter : b'a' ≤ c → c ≤ b'z' → IsLabelChar c
  digit : b'0' ≤ c → c ≤ b'9' → IsLabelChar c
  dash : c ≡ b'-' → IsLabelChar c

-- A label of the Domain Name System.
pub record IsLabel (label : List ℕ) : Type 0 where
  pub first : ℕ
  pub more : List ℕ
  pub not_empty : label ≡ first ∷ more
  pub short : bytes label ≤ 63
  pub chars : All IsLabelChar label

-- The text of some labels, each with a dot before it.
abbrev pub dotted : List (List ℕ) → List ℕ
dotted [] = []
dotted (label ∷ labels) = b'.' ∷ (label ++ dotted labels)

-- The labels of a name, with dots between them.
abbrev joined : List ℕ × List (List ℕ) → List ℕ
joined (label, labels) = label ++ dotted labels

split_step :
    (dot : Bool) (c : ℕ) (parts : List ℕ × List (List ℕ))
    → (dot ≡ true → c ≡ b'.')
    → joined (if dot then ([], parts.0 ∷ parts.1) else (c ∷ parts.0, parts.1)) ≡ c ∷ joined parts
split_step true c parts h = rw (h refl) refl
split_step false c parts h = refl

joined-split : (h : List ℕ) → joined (split h) ≡ h
unfolding split
joined-split [] = refl
joined-split (c ∷ rest) =
    split_step (c == b'.') c (split rest) (==_iff c b'.').0 ∙ ap (λ t. c ∷ t) (joined-split rest)

and_true : (b c : Bool) → (b && c) ≡ true → (b ≡ true) × (c ≡ true)
and_true b c h = ground arith

label_char : (c : ℕ) → is_label_char c ≡ true → IsLabelChar c
unfolding is_label_char
label_char c h = elim (Bool-cases (leb b'a' c && leb c b'z')) [
  | inl e ↦ letter (leb→le b'a' c (and_true _ _ e).0) (leb→le c b'z' (and_true _ _ e).1)
  | inr e ↦ elim (Bool-cases (leb b'0' c && leb c b'9')) [
    | inl e' ↦ digit (leb→le b'0' c (and_true _ _ e').0) (leb→le c b'9' (and_true _ _ e').1)
    | inr e' ↦ dash ((==_iff c b'-').0 (ground (arith, h, e, e')))
  ]
]

all_cons :
    {A : Type 0} (p : A → Bool) (x : A) (xs : List A)
    → all p (x ∷ xs) ≡ true
    → (p x ≡ true) × (all p xs ≡ true)
unfolding all
all_cons p x xs h = ground arith

label_chars : (s : List ℕ) → all is_label_char s ≡ true → All IsLabelChar s
label_chars [] h = tt
label_chars (c ∷ rest) h =
    let (now, later) = all_cons is_label_char c rest h in (label_char c now, label_chars rest later)

is_label-IsLabel : (s : List ℕ) → is_label s ≡ true → IsLabel s
unfolding is_label
is_label-IsLabel [] h = absurd (cc)
is_label-IsLabel (c ∷ rest) h =
    let (h1, chars) = and_true _ (all is_label_char (c ∷ rest)) h in
    let (h2, e) = and_true _ _ h1 in
    let (short, s) = and_true _ _ h2 in
    record {
      first = c;
      more = rest;
      not_empty = refl;
      short = leb→le (bytes (c ∷ rest)) 63 short;
      chars = label_chars (c ∷ rest) chars;
    }

all_labels : (labels : List (List ℕ)) → all is_label labels ≡ true → All IsLabel labels
all_labels [] h = tt
all_labels (s ∷ rest) h =
    let (now, later) = all_cons is_label s rest h in (is_label-IsLabel s now, all_labels rest later)

-- What an accepted name is made of.
pub record IsHostname (is_ip : List ℕ → Bool) (h : List ℕ) : Type 0 where
  pub label : List ℕ
  pub labels : List (List ℕ)
  pub made_of : h ≡ label ++ dotted labels
  pub each : All IsLabel (label ∷ labels)
  pub short : bytes h ≤ 253
  pub no_address : is_ip h ≡ false

module _ (lib : Library) (is_ip : List ℕ → Bool) (allow_localhost : Bool) where
  is_hostname-IsHostname :
      (h : List ℕ) → is_hostname lib is_ip allow_localhost h ≡ true → IsHostname is_ip h
  unfolding is_hostname
  is_hostname-IsHostname h e =
      let (e1, rest) = and_true _ (all is_label (split h).1) e in
      let (e2, first) = and_true _ (is_label (split h).0) e1 in
      let (e3, _) = and_true _ _ e2 in
      let (e4, _) = and_true _ _ e3 in
      let (e5, no_ip) = and_true _ (not (is_ip h)) e4 in
      let (e6, _) = and_true _ _ e5 in
      let (_, short) = and_true _ (leb (bytes h) 253) e6 in
      record {
        label = (split h).0;
        labels = (split h).1;
        made_of = sym (joined-split h);
        each = (is_label-IsLabel (split h).0 first, all_labels (split h).1 rest);
        short = leb→le (bytes h) 253 short;
        no_address = ground (arith, no_ip);
      }

passed :
    (b : Bool) (s t : List ℕ)
    → ◌≡◌ {A = Result InputError (List ℕ)} (if b then ok s else err invalid_input) (ok t)
    → (b ≡ true) × (s ≡ t)
passed true s t h = (refl, cc)
passed false s t h = absurd (cc)

-- A host name that NormalizeHostname accepts is no IP address, has at most 253 bytes, and is the
-- list of its labels with dots between them, each of 1 to 63 bytes, all letters in lower case, digits
-- or dashes.
pub normalize_hostname-ok :
    (lib : Library) (is_ip : List ℕ → Bool) (allow_localhost : Bool) (input : String) (h : List ℕ)
    → normalize_hostname lib is_ip allow_localhost input ≡ ok h
    → IsHostname is_ip h
unfolding normalize_hostname
normalize_hostname-ok lib is_ip allow_localhost input h e =
    let name = without_last_dot (codes (lib.to_lower (lib.trim_space input))) in
    let (accepted, same) = passed (is_hostname lib is_ip allow_localhost name) name h e in
    rw (← same) (is_hostname-IsHostname lib is_ip allow_localhost name accepted)
