-- ===== src/Ipc/Client.antt =====
-- PipeClient::listen in appytizer-ui/ipc/pipe_client.cpp: what one round of its loop does.
use appytizer_app_server.Base.{
  ℕ, zero, suc, ◌*◌, Bool, true, false, not, ◌&&◌, List, [], ◌∷◌, ◌++◌, map, Text, ltb,
  if◌then◌else◌,
}
pub mod Announced

-- What the callback is given, the two announcements or a message of the Engine, and the waits between,
-- in milliseconds.
pub data Notice : Type 0 where
  disconnected connected : Notice
  message : Text → Notice
  waits : ℕ → Notice

-- What a round meets: no pipe, a pipe that does not take the subscription, or a session with its
-- messages.
pub data Round : Type 0 where
  no_pipe refused : Round
  session : List Text → Round

pub record Listener : Type 0 where
  pub reconnect_delay : ℕ
  pub offline_announced : Bool

abbrev pub new_listener : Listener
new_listener = record { reconnect_delay = 200; offline_announced = false }

abbrev doubled : ℕ → ℕ
doubled delay = if ltb (delay * 2) 5000 then delay * 2 else 5000

-- `if (!offline_announced) { dispatch(...); offline_announced = true; }`
abbrev announce_offline : Bool → List Notice
announce_offline announced = if announced then [] else disconnected ∷ []

-- A round while the client listens. It waits only where there is no pipe.
unfoldable pub round : Round → Listener → Listener × List Notice
round no_pipe l = (
  record { reconnect_delay = doubled l.reconnect_delay; offline_announced = true },
  announce_offline l.offline_announced ++ (waits l.reconnect_delay ∷ []),
)
round refused l = (record l { offline_announced = true }, announce_offline l.offline_announced)
round (session messages) l = (
  record { reconnect_delay = 200; offline_announced = true },
  connected ∷ (map message messages ++ (disconnected ∷ [])),
)

unfoldable pub listen : List Round → Listener → Listener × List Notice
unfolding round
listen [] l = (l, [])
listen (r ∷ rounds) l =
    let (l', notices) = round r l in let (l'', later) = listen rounds l' in (l'', notices ++ later)
