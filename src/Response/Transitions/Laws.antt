-- ===== src/Response/Transitions/Laws.antt =====
-- The shape of the transition table.
use flood_agent.Base.{◌≡◌, true, false, arith}
use flood_agent.Response.Enums.{TaskStatus, completed}
use flood_agent.Response.Transitions.{is_terminal, can_transition}

pub terminal_has_no_exit : (s t : TaskStatus) → is_terminal s ≡ true → can_transition s t ≡ false
unfolding is_terminal can_transition
terminal_has_no_exit completed _ h = ground arith
terminal_has_no_exit _ _ h = ground arith
