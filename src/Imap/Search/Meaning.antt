-- ===== src/Imap/Search/Meaning.antt =====
-- What a search program asks for, by RFC 3501: the criteria that the code builds, and the filters and
-- the ids that they stand for.
use apple_mail_fast_mcp.Base.{
  ◌≡◌, refl, sym, ap, ◌∙◌, ◌≢◌, inl, inr, Bool, true, false, not, ◌&&◌, ◌||◌, none, some, List,
  Option, [], ◌∷◌, arith, any, Bool-cases,
}
use apple_mail_fast_mcp.Text.{Text, codes, text_member}
use apple_mail_fast_mcp.Imap.{
  Criteria, word, group, finish, also, words, ImapError, value_error, Reply, value, error,
  Reply-cases,
}
use apple_mail_fast_mcp.Imap.Dates.{iso_to_imap_date, iso_to_imap_before}
use apple_mail_fast_mcp.Imap.Search.{
  has_control, bracketed, bracket_all, header_clause, or_clauses, or_of, or_message_id_criteria,
  Filters, text_terms, flag_terms, date_terms, extend, or_all, search_terms, build_search_criteria,
}

-- What a server can tell of a message: the text keys and the dates by key and argument, a header by
-- name and argument, and two flags.
pub record Facts : Type 0 where
  pub has_text : Text → Text → Bool
  pub has_header : Text → Text → Bool
  pub is_seen : Bool
  pub is_flagged : Bool

-- The keys with one argument
abbrev pub text_keys : List Text
text_keys =
    codes "FROM"
    ∷ codes "SUBJECT"
    ∷ codes "SINCE"
    ∷ codes "BEFORE"
    ∷ codes "BODY"
    ∷ codes "TEXT"
    ∷ []

-- The meaning of a program is the conjunction of its keys.
pub data Means (m : Facts) : Criteria → Bool → Type 0 where
  ended : Means m finish true
  all_key : {k : Criteria} {b : Bool} → Means m k b → Means m (also (word (codes "ALL")) k) b
  seen_key :
      {k : Criteria} {b : Bool}
      → Means m k b
      → Means m (also (word (codes "SEEN")) k) (m.is_seen && b)
  unseen_key :
      {k : Criteria} {b : Bool}
      → Means m k b
      → Means m (also (word (codes "UNSEEN")) k) (not m.is_seen && b)
  flagged_key :
      {k : Criteria} {b : Bool}
      → Means m k b
      → Means m (also (word (codes "FLAGGED")) k) (m.is_flagged && b)
  unflagged_key :
      {k : Criteria} {b : Bool}
      → Means m k b
      → Means m (also (word (codes "UNFLAGGED")) k) (not m.is_flagged && b)
  text_key :
      {k : Criteria} {b : Bool} (key s : Text)
      → text_member key text_keys ≡ true
      → Means m k b
      → Means m (also (word key) (also (word s) k)) (m.has_text key s && b)
  header_key :
      {k : Criteria} {b : Bool} (name s : Text)
      → Means m k b
      → Means m
          (also (word (codes "HEADER")) (also (word name) (also (word s) k)))
          (m.has_header name s && b)
  or_key :
      {k l rest : Criteria} {a b d : Bool}
      → Means m k a
      → Means m l b
      → Means m rest d
      → Means m (also (word (codes "OR")) (also (group k) (also (group l) rest))) ((a || b) && d)

and_true : (b : Bool) → (b && true) ≡ b
and_true true = refl
and_true false = refl

or_false : (b : Bool) → (b || false) ≡ b
or_false true = refl
or_false false = refl

error≢value : {A : Type 0} (x : ImapError) (a : A) → error x ≢ value a
error≢value x a e = cc

extend-error :
    (r : Reply (List Text)) (x : ImapError) (ts : List Text) → extend r (error x) ≢ value ts
extend-error (value us) x ts e = cc
extend-error (error y) x ts e = cc

criteria_inj : (k l : Criteria) → value k ≡ value l → k ≡ l
criteria_inj k l e = ground arith

terms_inj : (k l : List Text) → value k ≡ value l → k ≡ l
terms_inj k l e = ground arith

module _ (m : Facts) where
  -- Whether the message has the id, in the form of `_bracket_message_id`
  abbrev pub has_id : Text → Bool
  has_id id = m.has_header (codes "Message-ID") id

  Means-eq : (k : Criteria) (a b : Bool) → a ≡ b → Means m k a → Means m k b
  Means-eq k a b e d = rw (sym e) d

  header_clause-Means : (id : Text) → Means m (header_clause id) (has_id id)
  unfolding header_clause
  header_clause-Means id =
      Means-eq _ _ _ (and_true (has_id id)) (header_key (codes "Message-ID") id ended)

  or_clauses-Means :
      (id : Text) (ids : List Text) → Means m (or_clauses id ids) (any has_id (id ∷ ids))
  unfolding or_clauses
  or_clauses-Means id [] = Means-eq _ _ _ (sym (or_false (has_id id))) (header_clause-Means id)
  or_clauses-Means id (next ∷ ids) =
      Means-eq _ _ _ (and_true _)
        (or_key (header_clause-Means id) (or_clauses-Means next ids) ended)

  any-bracketed :
      (ids ts : List Text)
      → bracket_all ids ≡ value ts
      → any has_id ts ≡ any (λ id. has_id (bracketed id)) ids
  unfolding bracket_all
  any-bracketed [] ts e = ground arith
  any-bracketed (id ∷ ids) ts e = elim (Reply-cases (bracket_all ids)) [
    | inl (rest, h) ↦ ground (arith, h, any-bracketed ids rest h)
    | inr (x, h) ↦ ground (arith, h)
  ]

  or_of-Means :
      (ts : List Text) (k : Criteria) → or_of (value ts) ≡ value k → Means m k (any has_id ts)
  or_of-Means [] k e = cc
  or_of-Means (id ∷ ids) k e = rw (sym (criteria_inj _ k e)) (or_clauses-Means id ids)

  -- The program that a batch of ids becomes asks for exactly the messages that have one of the ids,
  -- in brackets.
  pub or_message_id_criteria-Means :
      (ids : List Text) (k : Criteria)
      → or_message_id_criteria ids ≡ value k
      → Means m k (any (λ id. has_id (bracketed id)) ids)
  unfolding or_message_id_criteria
  or_message_id_criteria-Means ids k e = elim (Reply-cases (bracket_all ids)) [
    | inl (ts, h) ↦
        Means-eq k _ _ (any-bracketed ids ts h) (or_of-Means ts k (ap or_of (sym h) ∙ e))
    | inr (x, h) ↦ absurd (error≢value x k (ap or_of (sym h) ∙ e))
  ]

  -- What the filters ask of a message; an empty text asks nothing.
  abbrev pub text_holds : Text → Option Text → Bool
  text_holds key none = true
  text_holds key (some []) = true
  text_holds key (some (c ∷ s)) = m.has_text key (c ∷ s)

  abbrev pub flag_holds : Bool → Option Bool → Bool
  flag_holds b none = true
  flag_holds b (some true) = b
  flag_holds b (some false) = not b

  abbrev pub date_holds : Text → (Text → Reply Text) → Option Text → Bool
  date_holds key read none = true
  date_holds key read (some iso) = elim (read iso) [
    | value date ↦ m.has_text key date
    | error e ↦ false
  ]

  abbrev pub filters_hold : Filters → Bool
  filters_hold f =
      text_holds (codes "FROM") f.sender_contains
      && (text_holds (codes "SUBJECT") f.subject_contains
          && (flag_holds m.is_seen f.read_status
              && (flag_holds m.is_flagged f.is_flagged
                  && (date_holds (codes "SINCE") iso_to_imap_date f.date_from
                      && (date_holds (codes "BEFORE") iso_to_imap_before f.date_to
                          && (text_holds (codes "BODY") f.body_contains
                              && text_holds (codes "TEXT") f.text_contains))))))

  -- A reply whose terms, if it has any, ask for the condition
  abbrev Ask : Reply (List Text) → Bool → Type 0
  Ask r b = (ts : List Text) → r ≡ value ts → Means m (words ts) b

  value-Ask : (ts : List Text) (b : Bool) → Means m (words ts) b → Ask (value ts) b
  value-Ask ts b d us e = rw (sym (terms_inj ts us e)) d

  text_terms-Ask :
      (key : Text) (o : Option Text) (r : Reply (List Text)) (b : Bool)
      → text_member key text_keys ≡ true
      → Ask r b
      → Ask (extend (text_terms key o) r) (text_holds key o && b)
  unfolding text_terms
  text_terms-Ask key o (error x) b t h ts e = absurd (extend-error (text_terms key o) x ts e)
  text_terms-Ask key none (value us) b t h ts e = h ts e
  text_terms-Ask key (some []) (value us) b t h ts e = h ts e
  text_terms-Ask key (some (c ∷ s)) (value us) b t h ts e =
      elim (Bool-cases (has_control (c ∷ s))) [
        | inl bad ↦ ground (arith, bad)
        | inr good ↦
            value-Ask (key ∷ (c ∷ s) ∷ us) _ (text_key key (c ∷ s) t (h us refl)) ts
              (sym (rw good refl) ∙ e)
      ]

  last_terms-Ask :
      (key : Text) (o : Option Text)
      → text_member key text_keys ≡ true
      → Ask (text_terms key o) (text_holds key o)
  unfolding text_terms
  last_terms-Ask key none t ts e = value-Ask [] true ended ts e
  last_terms-Ask key (some []) t ts e = value-Ask [] true ended ts e
  last_terms-Ask key (some (c ∷ s)) t ts e = elim (Bool-cases (has_control (c ∷ s))) [
    | inl bad ↦ absurd (error≢value value_error ts (sym (rw bad refl) ∙ e))
    | inr good ↦
        value-Ask (key ∷ (c ∷ s) ∷ []) _
          (Means-eq _ _ _ (and_true _) (text_key key (c ∷ s) t ended)) ts (sym (rw good refl) ∙ e)
  ]

  date_terms-Ask :
      (key : Text) (read : Text → Reply Text) (o : Option Text) (r : Reply (List Text)) (b : Bool)
      → text_member key text_keys ≡ true
      → Ask r b
      → Ask (extend (date_terms key read o) r) (date_holds key read o && b)
  unfolding date_terms
  date_terms-Ask key read o (error x) b t h ts e =
      absurd (extend-error (date_terms key read o) x ts e)
  date_terms-Ask key read none (value us) b t h ts e = h ts e
  date_terms-Ask key read (some iso) (value us) b t h ts e = elim (Reply-cases (read iso)) [
    | inl (date, q) ↦ Means-eq _ _ _ (rw (q, date_holds, ◌&&◌) refl) (
        value-Ask (key ∷ date ∷ us) _ (text_key key date t (h us refl)) ts
          (sym (rw (q, extend) refl) ∙ e))
    | inr (x, q) ↦ absurd (error≢value x ts (sym (rw (q, extend) refl) ∙ e))
  ]

  flag_terms-Ask :
      (on off : Text) (fact : Bool) (o : Option Bool) (r : Reply (List Text)) (b : Bool)
      → ((k : Criteria) (d : Bool) → Means m k d → Means m (also (word on) k) (fact && d))
      → ((k : Criteria) (d : Bool) → Means m k d → Means m (also (word off) k) (not fact && d))
      → Ask r b
      → Ask (extend (value (flag_terms on off o)) r) (flag_holds fact o && b)
  unfolding flag_terms
  flag_terms-Ask on off fact o (error x) b p q h ts e =
      absurd (extend-error (value (flag_terms on off o)) x ts e)
  flag_terms-Ask on off fact none (value us) b p q h ts e = h ts e
  flag_terms-Ask on off fact (some true) (value us) b p q h ts e =
      value-Ask (on ∷ us) _ (p (words us) b (h us refl)) ts e
  flag_terms-Ask on off fact (some false) (value us) b p q h ts e =
      value-Ask (off ∷ us) _ (q (words us) b (h us refl)) ts e

  or_all-Ask : (r : Reply (List Text)) (b : Bool) → Ask r b → Ask (or_all r) b
  or_all-Ask (value []) b h ts e = value-Ask _ b (all_key (h [] refl)) ts e
  or_all-Ask (value (t ∷ us)) b h ts e = h ts e
  or_all-Ask (error x) b h ts e = absurd (error≢value x ts e)

  -- The criteria that the filters become ask for exactly the messages for which every filter holds:
  -- a text filter that is given and not empty, the two flags, and the two dates in IMAP's form.
  pub build_search_criteria-Means :
      (f : Filters) (ts : List Text)
      → build_search_criteria f ≡ value ts
      → Means m (words ts) (filters_hold f)
  unfolding build_search_criteria search_terms
  build_search_criteria-Means f = or_all-Ask _ _ (
      text_terms-Ask _ f.sender_contains _ _ refl (
        text_terms-Ask _ f.subject_contains _ _ refl (
          flag_terms-Ask _ _ m.is_seen f.read_status _ _ (λ k d. seen_key) (λ k d. unseen_key)
            (flag_terms-Ask _ _ m.is_flagged f.is_flagged _ _ (λ k d. flagged_key)
              (λ k d. unflagged_key)
              (date_terms-Ask _ iso_to_imap_date f.date_from _ _ refl (
                date_terms-Ask _ iso_to_imap_before f.date_to _ _ refl (
                  text_terms-Ask _ f.body_contains _ _ refl
                    (last_terms-Ask _ f.text_contains refl))))))))
