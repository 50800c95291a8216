-- ===== src/Imap/Tests/Sessions.antt =====
-- The pool at concrete steps.
use apple_mail_fast_mcp.Base.{◌≡◌, refl, true, [], ◌∷◌}
use apple_mail_fast_mcp.Text.{codes}
use apple_mail_fast_mcp.Imap.Pool.{
  Key, connected, get_entry, pop, values, client_member, Pool, is_stale, open_new, drop_stale,
  begin, begins, acquires, new_pool, Reach, start, after_step,
}
use apple_mail_fast_mcp.Imap.Pool.Invariant.{IsSound}
use apple_mail_fast_mcp.Imap.Pool.Invariant.Steps.{Reach-IsSound}

abbrev key : Key
key = record { host = codes "h"; email = codes "a@x" }

-- A thread opens a session at the time 0 and holds it; another begins at 271.
abbrev opened : Pool
opened = begin 270 key 0 (connected 0) new_pool

abbrev held : Pool
held = record opened { waiting = []; holding = (key, 0) ∷ [] }

abbrev replaced : Pool
replaced = begin 270 key 271 (connected 271) held

opened_waiting : opened.waiting ≡ (key, 0) ∷ []
unfolding begin get_entry open_new
opened_waiting = refl

opened_holding : opened.holding ≡ []
unfolding begin get_entry open_new
opened_holding = refl

held-Reach : Reach 270 held
unfolding begin get_entry open_new
held-Reach =
    after_step (after_step start (begins new_pool key 0 (connected 0)))
      (acquires opened key 0 [] [] refl refl)

replaced-Reach : Reach 270 replaced
replaced-Reach = after_step held-Reach (begins held key 271 (connected 271))

-- The client that the first thread still holds was logged out by the second.
held_logged_out :
    (client_member 0 (values replaced.holding) ≡ true)
    × (client_member 0 replaced.logged_out ≡ true)
unfolding begin get_entry open_new drop_stale is_stale pop
held_logged_out = (refl, refl)

Reach-IsSound_example : IsSound replaced
Reach-IsSound_example = Reach-IsSound 270 replaced-Reach
