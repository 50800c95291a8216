-- ===== src/Imap/Triples.antt =====
-- Rules for what a session sends: a property of every command sent is an invariant, with a
-- postcondition on the value that a step returns.
use apple_mail_fast_mcp.Base.{ℕ, ◌≡◌, Bool, true, false, List, All, if◌then◌else◌}
use apple_mail_fast_mcp.Text.{Text}
use apple_mail_fast_mcp.Imap.{
  Command, list_folders, select_folder, search_for, change, Change, Criteria, Folder, client_error,
  ImapError, Reply, value, error, Client, Session, Imap, pure, fail, lift, follow, after, quietly,
  ◌>>=◌, suppressed, suppress_client_error, open_session, client_capabilities, send_list,
  send_select, send_search, send_change,
}

-- What a reply holds, if it is a value
abbrev pub Holds : {A : Type 0} → (A → Type 0) → Reply A → Type 0
Holds Q (value a) = Q a
Holds Q (error e) = Unit

pub anything : {A : Type 0} (r : Reply A) → Holds (λ _. Unit) r
anything (value a) = tt
anything (error e) = tt

module _ {W : Type 0} (P : Command → Type 0) where
  abbrev pub Sends : {A : Type 0} → (A → Type 0) → Reply A × Session W → Type 0
  Sends Q (r, s) = All P s.sent × Holds Q r

  -- A step that only sends commands with the property, and whose value has a property.
  abbrev pub Safe : {A : Type 0} → (A → Type 0) → Imap W A → Type 0
  Safe Q m = (s : Session W) → All P s.sent → Sends Q (m s)

  follow-Sends :
      {A B : Type 0} (Q : A → Type 0) (R : B → Type 0) (r : Reply A × Session W) (f : A → Imap W B)
      → Sends Q r
      → ((a : A) → Q a → Safe R (f a))
      → Sends R (follow r f)
  follow-Sends Q R (value a, s) f h k = k a h.1 s h.0
  follow-Sends Q R (error e, s) f h k = (h.0, tt)

  pub bind-Safe :
      {A B : Type 0} (Q : A → Type 0) (R : B → Type 0) (m : Imap W A) (f : A → Imap W B)
      → Safe Q m
      → ((a : A) → Q a → Safe R (f a))
      → Safe R (m >>= f)
  bind-Safe Q R m f h k s inv = follow-Sends Q R (m s) f (h s inv) k

  pub pure-Safe : {A : Type 0} (Q : A → Type 0) (a : A) → Q a → Safe Q (pure a)
  pure-Safe Q a q s inv = (inv, q)

  pub fail-Safe : {A : Type 0} (Q : A → Type 0) (e : ImapError) → Safe Q (fail e)
  fail-Safe Q e s inv = (inv, tt)

  pub lift-Safe : {A : Type 0} (Q : A → Type 0) (r : Reply A) → Holds Q r → Safe Q (lift r)
  lift-Safe Q r h s inv = (inv, h)

  pub if-Safe :
      {A : Type 0} (Q : A → Type 0) (b : Bool) (m n : Imap W A)
      → Safe Q m
      → Safe Q n
      → Safe Q (if b then m else n)
  if-Safe Q true m n h k = h
  if-Safe Q false m n h k = k

  suppressed-Sends :
      (r : Reply (Unit {0}) × Session W) → Sends (λ _. Unit) r → Sends (λ _. Unit) (suppressed r)
  suppressed-Sends (value a, s) h = h
  suppressed-Sends (error client_error, s) h = h
  suppressed-Sends (error e, s) h = h

  pub suppress-Safe :
      (m : Imap W (Unit {0})) → Safe (λ _. Unit) m → Safe (λ _. Unit) (suppress_client_error m)
  unfolding suppress_client_error
  suppress-Safe m h s inv = suppressed-Sends (m s) (h s inv)

module _ {W : Type 0} (P : Command → Type 0) (c : Client W) where
  quietly-Sends :
      {A : Type 0} (Q : A → Type 0) (sent : List Command) (r : Reply A × W)
      → Holds Q r.0
      → All P sent
      → Sends P Q (quietly sent r)
  quietly-Sends Q sent (r, w) h inv = (inv, h)

  after-Sends :
      {A : Type 0} (Q : A → Type 0) (d : Command) (sent : List Command) (r : Reply A × W)
      → P d
      → Holds Q r.0
      → All P sent
      → Sends P Q (after d sent r)
  after-Sends Q d sent (r, w) p h inv = ((p, inv), h)

  pub open-Safe : Safe P (λ _. Unit) (open_session c)
  open-Safe s = quietly-Sends (λ _. Unit) s.sent (c.opened s.world) (anything (c.opened s.world).0)

  pub capabilities-Safe : Safe P (λ _. Unit) (client_capabilities c)
  capabilities-Safe s =
      quietly-Sends (λ _. Unit) s.sent (c.capabilities s.world)
        (anything (c.capabilities s.world).0)

  pub capabilities_giving :
      (Q : List Text → Type 0)
      → ((w : W) → Holds Q (c.capabilities w).0)
      → Safe P Q (client_capabilities c)
  capabilities_giving Q h s = quietly-Sends Q s.sent (c.capabilities s.world) (h s.world)

  pub select_giving :
      (Q : ℕ → Type 0) (name : Text) (readonly : Bool)
      → P (select_folder name readonly)
      → ((w : W) → Holds Q (c.selected name readonly w).0)
      → Safe P Q (send_select c name readonly)
  select_giving Q name readonly p h s =
      after-Sends Q (select_folder name readonly) s.sent (c.selected name readonly s.world) p
        (h s.world)

  pub list-Safe :
      (Q : List Folder → Type 0)
      → P list_folders
      → ((w : W) → Holds Q (c.folders w).0)
      → Safe P Q (send_list c)
  list-Safe Q p h s = after-Sends Q list_folders s.sent (c.folders s.world) p (h s.world)

  pub select-Safe :
      (name : Text) (readonly : Bool)
      → P (select_folder name readonly)
      → Safe P (λ _. Unit) (send_select c name readonly)
  select-Safe name readonly p s =
      after-Sends (λ _. Unit) (select_folder name readonly) s.sent
        (c.selected name readonly s.world) p (anything (c.selected name readonly s.world).0)

  pub search-Safe : (k : Criteria) → P (search_for k) → Safe P (λ _. Unit) (send_search c k)
  search-Safe k p s =
      after-Sends (λ _. Unit) (search_for k) s.sent (c.found k s.world) p
        (anything (c.found k s.world).0)

  pub change-Safe : (d : Change) → P (change d) → Safe P (λ _. Unit) (send_change c d)
  change-Safe d p s =
      after-Sends (λ _. Unit) (change d) s.sent (c.changed d s.world) p
        (anything (c.changed d s.world).0)

-- The rules where the values do not matter
module _ {W : Type 0} (P : Command → Type 0) where
  abbrev pub Quiet : {A : Type 0} → Imap W A → Type 0
  Quiet {A} m = Safe P (λ (_ : A). Unit) m

  pub done : {A : Type 0} (a : A) → Quiet (pure a)
  done a s inv = (inv, tt)

  pub failed : (A : Type 0) (e : ImapError) → Quiet (fail {A = A} e)
  failed A e s inv = (inv, tt)

  pub checked : (r : Reply (Unit {0})) → Quiet (lift r)
  checked r s inv = (inv, anything r)

  pub step :
      {A B : Type 0} (m : Imap W A) (f : A → Imap W B)
      → Quiet m
      → ((a : A) → Quiet (f a))
      → Quiet (m >>= f)
  step m f h k = bind-Safe P _ _ m f h (λ a _. k a)

  pub guarded :
      {A B : Type 0} (Q : A → Type 0) (m : Imap W A) (f : A → Imap W B)
      → Safe P Q m
      → ((a : A) → Q a → Quiet (f a))
      → Quiet (m >>= f)
  guarded Q m f h k = bind-Safe P Q _ m f h k

  pub split :
      {A : Type 0} (b : Bool) (m n : Imap W A) → Quiet m → Quiet n → Quiet (if b then m else n)
  split b m n h k = if-Safe P _ b m n h k

  -- A test whose outcome is known
  pub taken :
      {A : Type 0} (b : Bool) (m n : Imap W A) → b ≡ true → Quiet m → Quiet (if b then m else n)
  taken true m n e h = h
  taken false m n e h = cc
