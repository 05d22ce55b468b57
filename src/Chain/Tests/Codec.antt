-- ===== src/Chain/Tests/Codec.antt =====
-- A print of JSON values that parses back, for the concrete platform of the tests.
use memphis_v.Base.{
  ℕ, zero, suc, ◌+◌, ◌≤◌, ◌≡◌, refl, sym, ap, ◌∙◌, Text, true, false, ◌==◌, Option, none, some, [],
  ◌∷◌, ◌++◌, length, take, drop, reverse, ltb, arith, if◌then◌else◌,
}
use mathlib.Core.List.{reverse-append, reverse-reverse}
use memphis_v.Approval.Identity.{trim, trim_start, is_space}
use memphis_v.Base.Lists.{append_assoc, length-append, take-append, drop-append}
use memphis_v.Chain.Block.{hash_block}
use memphis_v.Chain.Append.Extends.{IsJson}
use memphis_v.Chain.Tamper.{NoCollision}
use memphis_v.Chain.Json.{
  Platform, natural, other, Json, null, boolean, number, string, array, object, Items, no_items,
  item, Members, no_members, member,
}

unfoldable mutual
  pub encode : Json → Text
  encode null = 1 ∷ []
  encode (boolean false) = 2 ∷ []
  encode (boolean true) = 3 ∷ []
  encode (number (natural n)) = 4 ∷ n ∷ []
  encode (number (other s)) = 5 ∷ length s ∷ s
  encode (string s) = 6 ∷ length s ∷ s
  encode (array xs) = 7 ∷ encode_items xs
  encode (object ms) = 8 ∷ encode_members ms

  pub encode_items : Items → Text
  encode_items no_items = 0 ∷ []
  encode_items (item v xs) = 9 ∷ (encode v ++ encode_items xs)

  pub encode_members : Members → Text
  encode_members no_members = 0 ∷ []
  encode_members (member k v ms) = 10 ∷ length k ∷ (k ++ (encode v ++ encode_members ms))

abbrev pub Parsed : Type 0 → Type 0
Parsed A = Option (A × Text)

abbrev then_parse : {A B : Type 0} → Parsed A → (A → Text → Parsed B) → Parsed B
then_parse none f = none
then_parse (some (a, s)) f = f a s

abbrev counted : (Text → Json) → Text → Parsed Json
counted f [] = none
counted f (n ∷ s) = some (f (take n s), drop n s)

abbrev one_number : Text → Parsed Json
one_number [] = none
one_number (n ∷ s) = some (number (natural n), s)

abbrev keyed : Text → (ℕ → Text → Parsed Members) → Parsed Members
keyed [] f = none
keyed (n ∷ s) f = f n s

unfoldable mutual
  pub decode : ℕ → Text → Parsed Json
  decode zero s = none
  decode (suc fuel) [] = none
  decode (suc fuel) (t ∷ s) =
      let xs = decode_items fuel s in
      let ms = decode_members fuel s in
      if t == 1
      then some (null, s)
      else if t == 2
      then some (boolean false, s)
      else if t == 3
      then some (boolean true, s)
      else if t == 4
      then one_number s
      else if t == 5
      then counted (λ x. number (other x)) s
      else if t == 6
      then counted string s
      else if t == 7
      then then_parse xs (λ x r. some (array x, r))
      else then_parse ms (λ x r. some (object x, r))

  pub decode_items : ℕ → Text → Parsed Items
  decode_items zero s = none
  decode_items (suc fuel) [] = none
  decode_items (suc fuel) (t ∷ s) =
      let v = decode fuel s in
      if t == 0
      then some (no_items, s)
      else then_parse v (λ x r. then_parse (decode_items fuel r) (λ xs q. some (item x xs, q)))

  pub decode_members : ℕ → Text → Parsed Members
  decode_members zero s = none
  decode_members (suc fuel) [] = none
  decode_members (suc fuel) (t ∷ s) =
      if t == 0
      then some (no_members, s)
      else keyed s (λ n r.
        then_parse (decode fuel (drop n r))
          (λ x q. then_parse (decode_members fuel q) (λ ms u. some (member (take n r) x ms, u))))

mutual
  unfolding encode decode

  decode-encode :
      (fuel : ℕ) (v : Json) (rest : Text)
      → length (encode v) ≤ fuel
      → decode fuel (encode v ++ rest) ≡ some (v, rest)
  decode-encode zero null rest h = absurd (omega arith)
  decode-encode (suc fuel) null rest h = refl
  decode-encode zero (boolean false) rest h = absurd (omega arith)
  decode-encode zero (boolean true) rest h = absurd (omega arith)
  decode-encode (suc fuel) (boolean false) rest h = refl
  decode-encode (suc fuel) (boolean true) rest h = refl
  decode-encode zero (number (natural n)) rest h = absurd (omega arith)
  decode-encode zero (number (other s)) rest h = absurd (omega arith)
  decode-encode (suc fuel) (number (natural n)) rest h = refl
  decode-encode (suc fuel) (number (other s)) rest h =
      rw (take-append s rest, drop-append s rest) refl
  decode-encode zero (string s) rest h = absurd (omega arith)
  decode-encode (suc fuel) (string s) rest h = rw (take-append s rest, drop-append s rest) refl
  decode-encode zero (array xs) rest h = absurd (omega arith)
  decode-encode (suc fuel) (array xs) rest h =
      rw (decode-encode_items fuel xs rest (omega (arith, h))) refl
  decode-encode zero (object ms) rest h = absurd (omega arith)
  decode-encode (suc fuel) (object ms) rest h =
      rw (decode-encode_members fuel ms rest (omega (arith, h))) refl

  decode-encode_items :
      (fuel : ℕ) (xs : Items) (rest : Text)
      → length (encode_items xs) ≤ fuel
      → decode_items fuel (encode_items xs ++ rest) ≡ some (xs, rest)
  decode-encode_items zero no_items rest h = absurd (omega arith)
  decode-encode_items (suc fuel) no_items rest h = refl
  decode-encode_items zero (item v xs) rest h = absurd (omega arith)
  decode-encode_items (suc fuel) (item v xs) rest h =
      let n = length-append (encode v) (encode_items xs) in
      rw
        (
          append_assoc (encode v) (encode_items xs) rest,
          decode-encode fuel v (encode_items xs ++ rest) (omega (arith, h, n)),
          decode-encode_items fuel xs rest (omega (arith, h, n)),
        )
        refl

  decode-encode_members :
      (fuel : ℕ) (ms : Members) (rest : Text)
      → length (encode_members ms) ≤ fuel
      → decode_members fuel (encode_members ms ++ rest) ≡ some (ms, rest)
  decode-encode_members zero no_members rest h = absurd (omega arith)
  decode-encode_members (suc fuel) no_members rest h = refl
  decode-encode_members zero (member k v ms) rest h = absurd (omega arith)
  decode-encode_members (suc fuel) (member k v ms) rest h =
      let n = length-append (encode v) (encode_members ms) in
      let m = length-append k (encode v ++ encode_members ms) in
      let tail = encode v ++ (encode_members ms ++ rest) in
      rw
        (
          append_assoc k (encode v ++ encode_members ms) rest,
          append_assoc (encode v) (encode_members ms) rest,
          take-append k tail,
          drop-append k tail,
          decode-encode fuel v (encode_members ms ++ rest) (omega (arith, h, n, m)),
          decode-encode_members fuel ms rest (omega (arith, h, n, m)),
        )
        refl

parsed_inj : {v w : Json} {s t : Text} → ◌≡◌ {A = Parsed Json} (some (v, s)) (some (w, t)) → v ≡ w
parsed_inj h = cc

encode_inj : (v w : Json) → encode v ≡ encode w → v ≡ w
encode_inj v w h =
    let fuel = length (encode v) + length (encode w) in
    let one = decode-encode fuel v [] (omega arith) in
    let other_one = decode-encode fuel w [] (omega arith) in
    parsed_inj (sym one ∙ (ap (λ s. decode fuel (s ++ [])) h ∙ other_one))

unfoldable pub first_of : Parsed Json → Option Json
first_of none = none
first_of (some (v, s)) = some v

unfoldable pub parse_framed : Text → Option Json
parse_framed [] = none
parse_framed (c ∷ s) = first_of (decode (length s) s)

abbrev pub platform : Platform
platform = record {
  json_print = encode;
  json_pretty = λ v. 100 ∷ (encode v ++ 101 ∷ []);
  json_parse = parse_framed;
  locale_before = λ a b. ltb (length a) (length b);
  sha256_hex = λ s. s;
}

framed_trim : (s : Text) → trim (100 ∷ (s ++ 101 ∷ [])) ≡ 100 ∷ (s ++ 101 ∷ [])
unfolding trim trim_start is_space
framed_trim s =
    let turned : reverse (100 ∷ (s ++ 101 ∷ [])) ≡ 101 ∷ reverse (100 ∷ s) =
      reverse-append (100 ∷ s) (101 ∷ []) in
    rw turned (ap reverse (sym turned) ∙ reverse-reverse (100 ∷ (s ++ 101 ∷ [])))

pub platform-IsJson : (v : Json) → IsJson platform v
unfolding parse_framed first_of
platform-IsJson v = record {
  parsed =
      rw
        (
          framed_trim (encode v),
          decode-encode (length (encode v ++ 101 ∷ [])) v (101 ∷ [])
              (omega (arith, length-append (encode v) (101 ∷ []))),
        )
        refl;
  filled = rw (framed_trim (encode v)) (ground (arith));
}

pub platform-NoCollision : NoCollision platform
unfolding hash_block
platform-NoCollision b c h = encode_inj _ _ h
