-- ===== src/Security/Safety/Reserved.antt =====
-- Which addresses count as reserved for tests, in the words of RFC 2606.
use apple_mail_fast_mcp.Base.{
  ◌↔◌, ◌≡◌, refl, sym, ◌==◌, ◌⊎◌, inl, inr, Bool, true, false, ◌||◌, Option, none, some, ◌∷◌, ◌++◌,
  arith,
}
use apple_mail_fast_mcp.Text.{
  Text, Unicode, codes, text_eq, has_char, lower, lstrip, after_last, before_last,
}
use apple_mail_fast_mcp.Text.Search.{
  text_eq→eq, text_eq_refl, ends_with→append, ends_with-append, after_last-some, after_last-append,
}
use apple_mail_fast_mcp.Security.Safety.{under_tld, is_reserved_domain, is_reserved_test_domain}

pub data TestTld : Type 0 where
  example test invalid localhost : TestTld

abbrev pub label : TestTld → Text
label example = codes "example"
label test = codes "test"
label invalid = codes "invalid"
label localhost = codes "localhost"

pub data SecondLevel : Type 0 where
  example_com example_net example_org : SecondLevel

abbrev pub domain_of : SecondLevel → Text
domain_of example_com = codes "example.com"
domain_of example_net = codes "example.net"
domain_of example_org = codes "example.org"

-- A reserved top-level domain or a name below one, or one of the three second-level domains.
pub data ReservedDomain : Text → Type 0 where
  second_level : (d : Text) (k : SecondLevel) → d ≡ domain_of k → ReservedDomain d
  top_level : (d : Text) (t : TestTld) → d ≡ label t → ReservedDomain d
  below : (d : Text) (t : TestTld) (rest : Text) → d ≡ rest ++ b'.' ∷ label t → ReservedDomain d

-- An address whose last `@` stands before a reserved domain.
pub record IsReserved (u : Unicode) (email : Text) : Type 0 where
  pub local : Text
  pub domain : Text
  pub parts : email ≡ local ++ b'@' ∷ domain
  pub last_at : has_char b'@' domain ≡ false
  pub reserved : ReservedDomain (lower u domain)

or_true : (a b : Bool) → (a || b) ≡ true → (a ≡ true) ⊎ (b ≡ true)
or_true true b h = inl refl
or_true false b h = inr h

-- `tld.lstrip(".")`
bare_tld : (t : TestTld) → lstrip (λ c. c == b'.') (b'.' ∷ label t) ≡ label t
unfolding lstrip
bare_tld example = refl
bare_tld test = refl
bare_tld invalid = refl
bare_tld localhost = refl

or_false : (a : Bool) → (a || false) ≡ true → a ≡ true
or_false true h = refl
or_false false h = h

under_tld-ReservedDomain :
    (d : Text) (t : TestTld) → under_tld d (b'.' ∷ label t) ≡ true → ReservedDomain d
unfolding under_tld
under_tld-ReservedDomain d t h = elim (or_true (text_eq d (label t)) _ (rw (bare_tld t) at h)) [
  | inl e ↦ top_level d t (text_eq→eq d _ e)
  | inr e ↦ let (rest, p) = ends_with→append d _ e in below d t rest p
]

pub is_reserved_domain-ReservedDomain : (d : Text) → is_reserved_domain d ≡ true → ReservedDomain d
unfolding is_reserved_domain
is_reserved_domain-ReservedDomain d h = elim (or_true _ _ h) [
  | inl e ↦ elim (or_true _ _ e) [
    | inl a ↦ second_level d example_com (sym (text_eq→eq _ d a))
    | inr r ↦ elim (or_true _ _ r) [
      | inl b ↦ second_level d example_net (sym (text_eq→eq _ d b))
      | inr q ↦ second_level d example_org (sym (text_eq→eq _ d (or_false _ q)))
    ]
  ]
  | inr e ↦ elim (or_true _ _ e) [
    | inl a ↦ under_tld-ReservedDomain d example a
    | inr r ↦ elim (or_true _ _ r) [
      | inl b ↦ under_tld-ReservedDomain d test b
      | inr q ↦ elim (or_true _ _ q) [
        | inl c ↦ under_tld-ReservedDomain d invalid c
        | inr z ↦ under_tld-ReservedDomain d localhost (or_false _ z)
      ]
    ]
  ]
]

ReservedDomain-under_tld :
    (t : TestTld) (rest : Text) → under_tld (rest ++ b'.' ∷ label t) (b'.' ∷ label t) ≡ true
unfolding under_tld
ReservedDomain-under_tld t rest = rw ends_with-append (ground arith)

any-under_tld :
    (d : Text) (t : TestTld) → under_tld d (b'.' ∷ label t) ≡ true → is_reserved_domain d ≡ true
unfolding is_reserved_domain
any-under_tld d example h = ground arith
any-under_tld d test h = ground arith
any-under_tld d invalid h = ground arith
any-under_tld d localhost h = ground arith

is_reserved_domain-domain_of : (k : SecondLevel) → is_reserved_domain (domain_of k) ≡ true
unfolding is_reserved_domain
is_reserved_domain-domain_of example_com = refl
is_reserved_domain-domain_of example_net = refl
is_reserved_domain-domain_of example_org = refl

under_tld-label : (t : TestTld) → under_tld (label t) (b'.' ∷ label t) ≡ true
unfolding under_tld
under_tld-label t = rw bare_tld (rw text_eq_refl refl)

pub ReservedDomain-is_reserved_domain : (d : Text) → ReservedDomain d → is_reserved_domain d ≡ true
ReservedDomain-is_reserved_domain d (second_level _ k p) = rw p (is_reserved_domain-domain_of k)
ReservedDomain-is_reserved_domain d (top_level _ t p) =
    rw p (any-under_tld (label t) t (under_tld-label t))
ReservedDomain-is_reserved_domain d (below _ t rest p) =
    rw p (any-under_tld _ t (ReservedDomain-under_tld t rest))

pub is_reserved_test_domain-IsReserved :
    (u : Unicode) (email : Text) → is_reserved_test_domain u email ≡ true → IsReserved u email
unfolding is_reserved_test_domain
is_reserved_test_domain-IsReserved u email h = go (after_last b'@' email) refl h
  where
    go :
        (o : Option Text)
        → after_last b'@' email ≡ o
        → elim o [ none ↦ false | some rest ↦ is_reserved_domain (lower u rest) ] ≡ true
        → IsReserved u email
    go none e k = cc
    go (some rest) e k =
        let (parts, last) = after_last-some b'@' email rest e in
        record {
          local = before_last b'@' email;
          domain = rest;
          parts = parts;
          last_at = last;
          reserved = is_reserved_domain-ReservedDomain (lower u rest) k;
        }

pub IsReserved-is_reserved_test_domain :
    (u : Unicode) (email : Text) → IsReserved u email → is_reserved_test_domain u email ≡ true
unfolding is_reserved_test_domain
IsReserved-is_reserved_test_domain u email r =
    rw (r.parts, after_last-append b'@' r.local r.domain r.last_at, is_reserved_test_domain)
      (ReservedDomain-is_reserved_domain (lower u r.domain) r.reserved)

-- The code accepts exactly the addresses that RFC 2606 reserves: those whose last `@` stands before
-- a domain which, in lower case, is one of the three second-level domains, one of the four top-level
-- domains, or a name below one of these four.
pub is_reserved_test_domain_iff :
    (u : Unicode) (email : Text) → (is_reserved_test_domain u email ≡ true) ↔ IsReserved u email
is_reserved_test_domain_iff u email =
    (is_reserved_test_domain-IsReserved u email, IsReserved-is_reserved_test_domain u email)
