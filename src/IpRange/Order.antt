-- ===== src/IpRange/Order.antt =====
-- `Contains` is the order of addresses as numbers.
use redwood_filter.Common.{
  ℕ, ◌+◌, ◌*◌, ◌<◌, ◌≡◌, inl, inr, refl, sym, ◌∙◌, true, ◌&&◌, Option, none, some, [], ◌∷◌, ◌++◌,
  arith, leb, ◌==◌, nat_eq, ==-refl, ==→eq, Bool-cases, length, Bytes, IsBytes, bytes_eq,
}
use redwood_filter.IpRange.{
  Ip, IpRange, short_form, not_below, not_above, contains_address, cut_dash, parse_ip_range,
}

-- The number that the bytes write, behind a number that is read already.
unfoldable pub value_from : ℕ → Ip → ℕ
value_from n [] = n
value_from n (b ∷ ip) = value_from (n * 256 + b) ip

-- The address as a number, its first byte the most significant.
abbrev pub value : Ip → ℕ
value = value_from 0

-- The longer common part decides.
value_from-lt :
    (m n : ℕ) (xs ys : Ip)
    → IsBytes xs
    → length xs ≡ length ys
    → m < n
    → value_from m xs < value_from n ys
unfolding value_from
value_from-lt m n [] [] h e k = k
value_from-lt m n [] (y ∷ ys) h e k = absurd (omega arith)
value_from-lt m n (x ∷ xs) [] h e k = absurd (omega arith)
value_from-lt m n (x ∷ xs) (y ∷ ys) (b, h) e k =
    value_from-lt (m * 256 + x) (n * 256 + y) xs ys h (omega arith) (omega arith)

not_below-value :
    (n : ℕ) (xs ys : Ip)
    → IsBytes xs
    → IsBytes ys
    → length xs ≡ length ys
    → not_below xs ys ≡ some (leb (value_from n ys) (value_from n xs))
unfolding not_below value_from
not_below-value n [] [] hx hy e = ground arith
not_below-value n [] (y ∷ ys) hx hy e = absurd (omega arith)
not_below-value n (x ∷ xs) [] hx hy e = absurd (omega arith)
not_below-value n (x ∷ xs) (y ∷ ys) hx hy e =
    let a = n * 256 + x in
    let b = n * 256 + y in
    let e' : length xs ≡ length ys = omega arith in
    ground (
      arith,
      value_from-lt a b xs ys hx.1 e',
      value_from-lt b a ys xs hy.1 (sym e'),
      not_below-value a xs ys hx.1 hy.1 e',
    )

not_above-value :
    (n : ℕ) (xs ys : Ip)
    → IsBytes xs
    → IsBytes ys
    → length xs ≡ length ys
    → not_above xs ys ≡ some (leb (value_from n xs) (value_from n ys))
unfolding not_above value_from
not_above-value n [] [] hx hy e = ground arith
not_above-value n [] (y ∷ ys) hx hy e = absurd (omega arith)
not_above-value n (x ∷ xs) [] hx hy e = absurd (omega arith)
not_above-value n (x ∷ xs) (y ∷ ys) hx hy e =
    let a = n * 256 + x in
    let b = n * 256 + y in
    let e' : length xs ≡ length ys = omega arith in
    ground (
      arith,
      value_from-lt a b xs ys hx.1 e',
      value_from-lt b a ys xs hy.1 (sym e'),
      not_above-value a xs ys hx.1 hy.1 e',
    )

-- Both ends have the same number of bytes, each a byte.
pub record IsRange (r : IpRange) : Type 0 where
  pub first_bytes : IsBytes r.first
  pub last_bytes : IsBytes r.last
  pub same_length : length r.last ≡ length r.first

-- Where both ends of the range have the same length, Contains does not panic, and it answers that
-- the address lies between the ends as a number, when its short form has the length of the ends,
-- and false otherwise.
pub contains_address-value :
    (r : IpRange) (addr : Ip)
    → IsRange r
    → IsBytes (short_form addr)
    → contains_address r addr
      ≡ some (
          length (short_form addr) == length r.first
          && (leb (value r.first) (value (short_form addr))
              && leb (value (short_form addr)) (value r.last)))
unfolding contains_address
contains_address-value r addr v bytes =
    elim (Bool-cases (length (short_form addr) == length r.first)) [
      | inr e ↦ rw e refl
      | inl e ↦
          let e' : length (short_form addr) ≡ length r.first = ==→eq _ _ e in
          rw
            (
              e,
              not_below-value 0 (short_form addr) r.first bytes v.first_bytes e',
              not_above-value 0 (short_form addr) r.last bytes v.last_bytes
                  (e' ∙ sym v.same_length),
            )
            (ground arith)
    ]

-- The two loops on an address that begins with all bytes of a shorter last address.
not_above_short : (last rest : Ip) (b : ℕ) → not_above (last ++ b ∷ rest) last ≡ none
unfolding not_above
not_above_short [] rest b = refl
not_above_short (x ∷ last) rest b = ground (arith, not_above_short last rest b)

contains_address_panics :
    (r : IpRange) (addr rest : Ip) (b : ℕ)
    → short_form addr ≡ r.last ++ b ∷ rest
    → length (short_form addr) ≡ length r.first
    → not_below (short_form addr) r.first ≡ some true
    → contains_address r addr ≡ none
unfolding contains_address
contains_address_panics r addr rest b split len low =
    rw (len, ==-refl (length r.first), low, split) (not_above_short r.last rest b)

-- ParseIPRange accepts two addresses of different families. If the address before the dash is the
-- longer one, Contains panics on every address of its length that is not below it and begins with
-- the bytes of the address behind the dash.
pub mixed_range_panics :
    (parse_ip : Bytes → Option Ip) (parse_cidr : Bytes → Option (Ip × Bytes))
    (ip_string : Ip → Bytes) (s before after : Bytes) (first last addr rest : Ip) (b : ℕ)
    → parse_cidr s ≡ none
    → cut_dash s ≡ some (before, after)
    → parse_ip before ≡ some first
    → parse_ip after ≡ some last
    → short_form addr ≡ short_form last ++ b ∷ rest
    → length (short_form addr) ≡ length (short_form first)
    → not_below (short_form addr) (short_form first) ≡ some true
    → (r : IpRange) × (parse_ip_range parse_ip parse_cidr ip_string s ≡ some r)
      × (contains_address r addr ≡ none)
unfolding parse_ip_range
mixed_range_panics parse_ip parse_cidr ip_string s before after first last addr rest b c d p q split
      len low =
    (
      record { first = short_form first; last = short_form last },
      ground (arith, c, d, p, q),
      contains_address_panics (record { first = short_form first; last = short_form last }) addr
          rest b split len low,
    )
