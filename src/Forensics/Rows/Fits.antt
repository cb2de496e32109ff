-- ===== src/Forensics/Rows/Fits.antt =====
-- Every row of ops/node_forensics.py is as wide as its header.
use mathlib.Core.List.{map}
use dmr.Prelude.{
  ℕ, zero, suc, Bool, true, false, ◌≡◌, refl, ap, sym, ◌∙◌, Option, some, List, [], ◌∷◌, ◌++◌, ◌==◌,
  Text, codes, length, length-append, All, arith, if◌then◌else◌,
}
use dmr.Forensics.{join}
use dmr.Forensics.Report.{split, onto_first, fits}
use dmr.Forensics.Probes.{
  Format, Counters, GpuQuery, timeout, os_error, exit_failed, stdout, repeat, padded, gpu_fields,
  gpu_sample,
}
use dmr.Forensics.Rows.{
  Columns, Answers, header_of, entries, gpu_columns, last_columns, last_fields, temperatures,
  looked_up, row_of,
}
use dmr.Prelude.{strip}

length-repeat : (n : ℕ) (t : Text) → length (repeat n t) ≡ n
unfolding repeat
length-repeat zero t = refl
length-repeat (suc n) t = ap suc (length-repeat n t)

length-padded : (n : ℕ) (vs : List Text) → length (padded n vs) ≡ n
unfolding padded
length-padded zero vs = refl
length-padded (suc n) [] = ap suc (length-padded n [])
length-padded (suc n) (v ∷ vs) = ap suc (length-padded n vs)

length-gpu_fields : (t : Text) → length (gpu_fields t) ≡ 5
unfolding gpu_fields
length-gpu_fields [] = length-repeat 5 []
length-gpu_fields (c ∷ t) = length-padded 5 _

length-gpu_sample : (q : GpuQuery) → length (gpu_sample q) ≡ 5
unfolding gpu_sample
length-gpu_sample timeout = length-repeat 5 (codes "TIMEOUT")
length-gpu_sample os_error = length-repeat 5 []
length-gpu_sample exit_failed = length-repeat 5 (codes "ERR")
length-gpu_sample (stdout t) = length-gpu_fields (strip t)

length-temperatures :
    (f : Format) (ts : List (Option Text)) → length (temperatures f ts) ≡ length ts
unfolding temperatures
length-temperatures f [] = refl
length-temperatures f (t ∷ ts) = ap suc (length-temperatures f ts)

length-looked_up :
    (f : Format) (d : Counters) (ks : List Text) → length (looked_up f d ks) ≡ length ks
unfolding looked_up
length-looked_up f d [] = refl
length-looked_up f d (k ∷ ks) = ap suc (length-looked_up f d ks)

length-map : {A B : Type 0} (g : A → B) (xs : List A) → length (map g xs) ≡ length xs
length-map g [] = refl
length-map g (x ∷ xs) = ap suc (length-map g xs)

append-same :
    {A B : Type 0} (xs us : List A) (ys vs : List B)
    → length xs ≡ length ys
    → length us ≡ length vs
    → length (xs ++ us) ≡ length (ys ++ vs)
append-same xs us ys vs h k = omega (arith, h, k, length-append xs us, length-append ys vs)

append-gpu :
    (q : GpuQuery) (us vs : List Text)
    → length us ≡ length vs
    → length (gpu_sample q ++ us) ≡ suc (suc (suc (suc (suc (length vs)))))
append-gpu q us vs h = omega (arith, h, length-append (gpu_sample q) us, length-gpu_sample q)

length-last_fields : (f : Format) (a : Answers) → length (last_fields f a) ≡ length last_columns
unfolding last_fields last_columns looked_up
length-last_fields f a = refl

-- A row has as many fields as the header.
length-row_of :
    (f : Format) (c : Columns) (zones hwmon : List (Option Text)) (a : Answers)
    → length zones ≡ length c.zones
    → length hwmon ≡ length c.hwmon
    → length (row_of f c zones hwmon a) ≡ length (header_of c)
unfolding row_of header_of
length-row_of f c zones hwmon a h k =
    let idle_fields = looked_up f a.idle c.idle_keys in
    let idle_columns = map entries c.idle_keys in
    let idle =
      append-same idle_fields (last_fields f a) idle_columns last_columns
        (length-looked_up f a.idle c.idle_keys ∙ sym (length-map entries c.idle_keys))
        (length-last_fields f a) in
    let gpu =
      append-gpu a.gpu (a.power.0 ∷ a.power.1 ∷ idle_fields ++ last_fields f a)
        (codes "gpu_w_min" ∷ codes "gpu_w_max" ∷ idle_columns ++ last_columns)
        (ap (λ n. suc (suc n)) idle) in
    let sensors =
      append-same (temperatures f hwmon) _ c.hwmon (gpu_columns ++ (idle_columns ++ last_columns))
        (length-temperatures f hwmon ∙ k) gpu in
    ap (λ n. suc (suc (suc (suc (suc (suc n))))))
      (append-same (temperatures f zones) _ c.zones _ (length-temperatures f zones ∙ h) sensors)

-- No character of the text is a comma.
abbrev pub HasNoComma : Text → Type 0
HasNoComma = All (λ c. c == 44 ≡ false)

unfoldable pub has_no_comma : Text → Bool
has_no_comma [] = true
has_no_comma (c ∷ t) = if c == 44 then false else has_no_comma t

-- The test of the texts of a row.
unfoldable pub no_commas : List Text → Bool
unfolding has_no_comma
no_commas [] = true
no_commas (t ∷ ts) = if has_no_comma t then no_commas ts else false

has_no_comma_lem : (t : Text) → has_no_comma t ≡ true → HasNoComma t
unfolding has_no_comma
has_no_comma_lem [] h = tt
has_no_comma_lem (c ∷ t) h = (ground (arith, h), has_no_comma_lem t (ground (arith, h)))

no_commas_lem : (ts : List Text) → no_commas ts ≡ true → All HasNoComma ts
unfolding no_commas
no_commas_lem [] h = tt
no_commas_lem (t ∷ ts) h =
    (has_no_comma_lem t (ground (arith, h)), no_commas_lem ts (ground (arith, h)))

split-one : (t : Text) → HasNoComma t → split t ≡ t ∷ []
unfolding split onto_first
split-one [] h = refl
split-one (c ∷ t) (a, h) = rw (a, split-one t h) refl

split-first : (t u : Text) → HasNoComma t → split (t ++ (44 ∷ u)) ≡ t ∷ split u
unfolding split onto_first
split-first [] u h = refl
split-first (c ∷ t) u (a, h) = rw (a, split-first t u h) refl

split-join : (f : Text) (fs : List Text) → All HasNoComma (f ∷ fs) → split (join (f ∷ fs)) ≡ f ∷ fs
unfolding join
split-join f [] (a, h) = split-one f a
split-join f (g ∷ fs) (a, h) = split-first f (join (g ∷ fs)) a ∙ ap (f ∷◌) (split-join g fs h)

-- Where each sensor found at the start is read again, and no field and no column name has a comma, the line that main writes for a
-- sample has exactly the row's fields, the crash report reads them back, and takes them for a row of the header's
-- columns.
pub row_of-fits :
    (f : Format) (c : Columns) (zones hwmon : List (Option Text)) (a : Answers)
    → length zones ≡ length c.zones
    → length hwmon ≡ length c.hwmon
    → no_commas (row_of f c zones hwmon a) ≡ true
    → no_commas (header_of c) ≡ true
    → (split (join (row_of f c zones hwmon a)) ≡ row_of f c zones hwmon a)
      × (fits (split (join (row_of f c zones hwmon a))) (some (split (join (header_of c)))) ≡ true)
unfolding fits row_of header_of
row_of-fits f c zones hwmon a h k p q =
    let e : split (join (row_of f c zones hwmon a)) ≡ row_of f c zones hwmon a =
      split-join _ _ (no_commas_lem _ p) in
    let d : split (join (header_of c)) ≡ header_of c =
      split-join (codes "ts") _ (no_commas_lem _ q) in
    (e, rw (e, d) (same (length-row_of f c zones hwmon a h k)))
  where
    same : {m n : ℕ} → m ≡ n → m == n ≡ true
    same e = ground (arith, e)
