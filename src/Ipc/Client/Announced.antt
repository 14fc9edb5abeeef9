-- ===== src/Ipc/Client/Announced.antt =====
-- What the tray application is told.
use appytizer_app_server.Base.{leb, Bool, true, false, not, ◌&&◌, List, [], ◌∷◌}
use appytizer_app_server.Ipc.Client.{Notice, disconnected, connected, message, waits}

-- From being offline (true) or not yet known to be (false) on: an announcement that the Engine is
-- gone comes only while that is not known, one that it is back only while it is or at the start, and
-- messages come only between. A wait is of 200 to 5000 milliseconds, and comes only while the Engine is
-- announced to be gone.
abbrev pub is_coherent : Bool → Bool → List Notice → Bool
is_coherent offline online [] = true
is_coherent offline online (disconnected ∷ ns) = not offline && is_coherent true false ns
is_coherent offline online (connected ∷ ns) = not online && is_coherent false true ns
is_coherent offline online (message text ∷ ns) = online && is_coherent offline online ns
is_coherent offline online (waits delay ∷ ns) =
    offline && (leb 200 delay && leb delay 5000) && is_coherent offline online ns
