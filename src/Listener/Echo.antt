-- ===== src/Listener/Echo.antt =====
-- What a TCP listener sends back.
use network_sandbox_engine.Prelude.{Text, true, false, List, [], ◌∷◌, ◌++◌, ◌≡◌, refl, ap}
use network_sandbox_engine.Listener.{Turn, received, recv_raises, handle_client}

-- the texts that were received, in their order
abbrev pub texts : List Turn → List Text
texts [] = []
texts (received t sendall_raises ∷ ts) = t ∷ texts ts
texts (recv_raises ∷ ts) = texts ts

-- What is sent back is what was received, from the first text on and in the same order.
pub handle_client-prefix :
    (ts : List Turn) → (rest : List Text) × (texts ts ≡ (handle_client ts).sent ++ rest)
unfolding handle_client
handle_client-prefix [] = ([], refl)
handle_client-prefix (recv_raises ∷ ts) = (texts ts, refl)
handle_client-prefix (received [] b ∷ ts) = ([] ∷ texts ts, refl)
handle_client-prefix (received (c ∷ t) true ∷ ts) = ((c ∷ t) ∷ texts ts, refl)
handle_client-prefix (received (c ∷ t) false ∷ ts) =
    let (rest, e) = handle_client-prefix ts in (rest, ap (λ l. (c ∷ t) ∷ l) e)
