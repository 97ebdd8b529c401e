-- ===== src/P2p/EndToEnd.antt =====
-- Send of p2p/sender/sender_tcp.go and the server of p2p/tcp.go at the two ends of a connection.
use candi_plugin.Base.{◌≡◌, false, List, [], ◌∷◌, ◌++◌, none, some, All, bytes_eq, ◌==◌}
use candi_plugin.Go.Text.{Bytes}
use candi_plugin.P2p.Types.{Handler}
use candi_plugin.P2p.Server.{Server, Modules}

-- The handlers of all modules, in the order in which they are mounted.
abbrev pub mounted : Modules → List Handler
mounted [] = []
mounted (none ∷ ms) = mounted ms
mounted (some hs ∷ ms) = hs ++ mounted ms

-- None of the handlers is for the prefix.
abbrev pub NoneFor : Bytes → List Handler → Type 0
NoneFor target = All (λ h. (target == h.prefix) ≡ false)
