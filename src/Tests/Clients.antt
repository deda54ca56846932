-- ===== src/Tests/Clients.antt =====
-- The theorem on the limiter and the addresses of clients, applied.
use vibe_printer.Prelude.{◌≤◌, refl, false, String, none, some, [], ◌∷◌, arith}
use vibe_printer.Prelude.Texts.{codes}
use vibe_printer.Prelude.Counting.{count_if}
use vibe_printer.Auth.Client.{Addresses, peer_trusted, any_covers, covers, has_slash}
use vibe_printer.Auth.Served.{Arrival, serve, from_peer, admitted_bounded}

abbrev addresses : Addresses
addresses = record {
  ip_address = λ s. some (codes s);
  in_network = λ ip network. some false;
  strip = λ s. s;
}

-- A client on the LAN that names another address in each request.
abbrev spoofed : String → Arrival
spoofed ip = record {
  now = 5;
  peer = "10.0.0.66";
  cf_connecting_ip = some ip;
  x_forwarded_for = none;
}

admitted_bounded_example :
    count_if
      (from_peer addresses ("10.0.0.0/30" ∷ []) 2 "10.0.0.66" 9)
      (serve addresses
        ("10.0.0.0/30" ∷ [])
        2
        (spoofed "1.1.1.1" ∷ spoofed "2.2.2.2" ∷ spoofed "3.3.3.3" ∷ [])
        []
        []).1
    ≤ 2
admitted_bounded_example =
    admitted_bounded addresses ("10.0.0.0/30" ∷ []) 2 "10.0.0.66"
      (spoofed "1.1.1.1" ∷ spoofed "2.2.2.2" ∷ spoofed "3.3.3.3" ∷ []) 9 (omega arith)
      (unfold peer_trusted any_covers covers has_slash in refl)
