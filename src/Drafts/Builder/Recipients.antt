-- ===== src/Drafts/Builder/Recipients.antt =====
-- Whom a reply to all is copied to.
use apple_mail_fast_mcp.Base.{
  ◌≡◌, refl, ap, ◌⊎◌, inl, inr, true, false, ◌||◌, List, [], ◌∷◌, ◌++◌, arith, All, Bool-cases, map,
  keep, is_empty, if◌then◌else◌,
}
use apple_mail_fast_mcp.Text.{Text, Unicode, text_member, lower}
use apple_mail_fast_mcp.Text.Search.{text_eq-sym, text_eq_refl}
use apple_mail_fast_mcp.Drafts.Builder.{
  Pair, has_address, other_recipients, derive_reply_recipients,
}

-- No text stands twice.
abbrev pub AreDifferent : List Text → Type 0
AreDifferent [] = Unit
AreDifferent (t ∷ ts) = (text_member t ts ≡ false) × AreDifferent ts

text_member-append :
    (t : Text) (xs ys : List Text)
    → text_member t (xs ++ ys) ≡ (text_member t xs || text_member t ys)
text_member-append t [] ys = refl
text_member-append t (x ∷ xs) ys = ground (arith, text_member-append t xs ys)

-- The pair is one of the pairs.
abbrev pub HasPair : List Pair → Pair → Type 0
HasPair [] p = ⊥
HasPair (q ∷ qs) p = (p ≡ q) ⊎ HasPair qs p

module _ (u : Unicode) where
  -- The addresses of pairs, in lower case
  abbrev pub keys : List Pair → List Text
  keys = map (λ p. lower u p.1)

  -- No pair has its address among some keys.
  abbrev pub Avoid : List Text → List Pair → Type 0
  Avoid seen = All (λ p. text_member (lower u p.1) seen ≡ false)

  Avoid-rest :
      (key : Text) (seen : List Text) (ps : List Pair) → Avoid (key ∷ seen) ps → Avoid seen ps
  Avoid-rest key seen [] h = tt
  Avoid-rest key seen (p ∷ ps) h = (ground (arith, h.0), Avoid-rest key seen ps h.1)

  Avoid-first :
      (key : Text) (seen : List Text) (ps : List Pair)
      → Avoid (key ∷ seen) ps
      → text_member key (keys ps) ≡ false
  Avoid-first key seen [] h = refl
  Avoid-first key seen (p ∷ ps) h =
      ground (arith, h.0, text_eq-sym (lower u p.1) key, Avoid-first key seen ps h.1)

  Avoid-parts :
      (xs ys : List Text) (ps : List Pair) → Avoid (xs ++ ys) ps → Avoid xs ps × Avoid ys ps
  Avoid-parts xs ys [] h = (tt, tt)
  Avoid-parts xs ys (p ∷ ps) h =
      let (a, b) = Avoid-parts xs ys ps h.1 in
      let both = text_member-append (lower u p.1) xs ys in
      ((ground (arith, h.0, both), a), (ground (arith, h.0, both), b))

  -- The pairs `ps` whose printed form the loop appends to the list, of the pairs of To and Cc `all`,
  -- where `seen` is what was seen before it.
  pub record AreOthers (seen : List Text) (all ps : List Pair) : Type 0 where
    pub listed : All (HasPair all) ps
    pub avoid : Avoid seen ps
    pub differ : AreDifferent (keys ps)
    -- Nobody else is left out.
    pub complete :
        (p : Pair)
        → HasPair all p
        → is_empty p.1 ≡ false
        → (text_member (lower u p.1) seen || text_member (lower u p.1) (keys ps)) ≡ true

  later : (q : Pair) (qs ps : List Pair) → All (HasPair qs) ps → All (HasPair (q ∷ qs)) ps
  later q qs [] h = tt
  later q qs (p ∷ ps) h = (inr h.0, later q qs ps h.1)

  others :
      (formataddr : Pair → Text) (seen : List Text) (all : List Pair)
      → (ps : List Pair) × (other_recipients u formataddr seen all ≡ map formataddr ps)
        × AreOthers seen all ps
  unfolding other_recipients
  others formataddr seen [] =
      ([], refl, record { listed = tt; avoid = tt; differ = tt; complete = λ p i e. absurd i })
  others formataddr seen (q ∷ qs) =
      elim (Bool-cases (is_empty q.1 || text_member (lower u q.1) seen)) [
        | inl skipped ↦
            let (ps, same, rest) = others formataddr seen qs in
            (
              ps,
              rw skipped same,
              record {
                listed = later q qs ps rest.listed;
                avoid = rest.avoid;
                differ = rest.differ;
                complete = λ p i e. elim i [
                  | inl first ↦
                      let key : lower u p.1 ≡ lower u q.1 = ap (λ x. lower u x.1) first in
                      let present : is_empty p.1 ≡ is_empty q.1 = ap (λ x. is_empty x.1) first in
                      rw key (ground (arith, skipped, present, e))
                  | inr other ↦ rest.complete p other e
                ];
              },
            )
        | inr taken ↦
            let (ps, same, rest) = others formataddr (lower u q.1 ∷ seen) qs in
            (
              q ∷ ps,
              rw (taken, same) refl,
              record {
                listed = (inl refl, later q qs ps rest.listed);
                avoid = (ground (arith, taken), Avoid-rest (lower u q.1) seen ps rest.avoid);
                differ = (Avoid-first (lower u q.1) seen ps rest.avoid, rest.differ);
                complete = λ p i e. elim i [
                  | inl first ↦
                      let key : lower u p.1 ≡ lower u q.1 = ap (λ x. lower u x.1) first in
                      rw key (ground (arith, text_eq_refl (lower u q.1)))
                  | inr other ↦ ground (arith, rest.complete p other e)
                ];
              },
            )
      ]

  -- A reply to all is copied to pairs of the To and Cc headers: to none whose address is one of the
  -- account's own or of a primary recipient, to none twice, and to everyone else who has an address
  -- there, whatever the case of the letters. The primary recipients are those of Reply-To, or of From
  -- where there is no Reply-To, that have an address.
  pub derive_reply_recipients-AreOthers :
      (formataddr : Pair → Text) (getaddresses : List Text → List Pair)
      (from_header reply_to to_header cc : Text) (self_addresses : List Text)
      → let source = if is_empty reply_to then from_header else reply_to in
        let primary = keep has_address (getaddresses (source ∷ [])) in
        (ps : List Pair) × (derive_reply_recipients u getaddresses formataddr from_header reply_to
            to_header cc self_addresses true
          ≡ (map formataddr primary, map formataddr ps))
        × AreOthers
            (keys primary ++ map (lower u) self_addresses)
            (getaddresses (to_header ∷ cc ∷ []))
            ps
  unfolding derive_reply_recipients
  derive_reply_recipients-AreOthers formataddr getaddresses from_header reply_to to_header cc
        self_addresses =
      let source = if is_empty reply_to then from_header else reply_to in
      let primary = keep has_address (getaddresses (source ∷ [])) in
      let (ps, same, are) =
        others formataddr (keys primary ++ map (lower u) self_addresses)
          (getaddresses (to_header ∷ cc ∷ [])) in
      (ps, ap (λ t. (map formataddr primary, t)) same, are)
