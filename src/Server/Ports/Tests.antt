-- ===== src/Server/Ports/Tests.antt =====
-- Runs of the ports and of the addresses, and the theorems at them.
use millionws.Base.{◌≡◌, refl, inl, inr, List, [], ◌∷◌, map, arith}
use millionws.Base.Int.{pos}
use millionws.Base.Text.{Text, codes, join, split_at}
use millionws.Base.Text.Integer.{decimal}
use millionws.Server.Ports.{
  max_load, bad_number, out_of_range, parse_ports, join_host_port, addresses_or_exit,
}
use millionws.Server.Ports.Items.{one, span, print, all_ports, parse_ports-print}
use millionws.Server.Ports.Addresses.{Listens, addresses_or_exit-Listens}

reads_spaces : parse_ports (codes " 8081 ,, 8090-8092") ≡ inr (8081 ∷ 8090 ∷ 8091 ∷ 8092 ∷ [])
unfolding parse_ports split_at
reads_spaces = refl

refuses_word : parse_ports (codes "8081,nope") ≡ inl (bad_number (codes "8081,nope") (codes "nope"))
unfolding parse_ports split_at
refuses_word = refl

refuses_backwards : parse_ports (codes "9-8") ≡ inl (out_of_range (codes "9-8") (codes "9-8"))
unfolding parse_ports split_at
refuses_backwards = refl

refuses_no_load : addresses_or_exit (pos 0) (codes "0.0.0.0") (pos 8080) [] ≡ inl (max_load (pos 0))
unfolding addresses_or_exit
refuses_no_load = refl

brackets : join_host_port (codes "::1") (pos 80) ≡ codes "[::1]:80"
unfolding decimal
brackets = refl

parse_ports-print_example :
    parse_ports (join (codes ",") (map print (one 8081 ∷ span 8090 8092 ∷ [])))
    ≡ inr (all_ports (one 8081 ∷ span 8090 8092 ∷ []))
parse_ports-print_example = parse_ports-print (one 8081 ∷ span 8090 8092 ∷ []) (omega arith)

abbrev three_addresses : List Text
three_addresses = codes "0.0.0.0:8080" ∷ codes "0.0.0.0:8079" ∷ codes "0.0.0.0:8081" ∷ []

drops_repeats :
    addresses_or_exit (pos 1_000_000) (codes "0.0.0.0") (pos 8080) (codes "8079-8081,8080")
    ≡ inr three_addresses
unfolding addresses_or_exit split_at decimal
drops_repeats = refl

addresses_or_exit-Listens_example :
    Listens (pos 1_000_000) (codes "0.0.0.0") (pos 8080) (codes "8079-8081,8080") three_addresses
addresses_or_exit-Listens_example =
    addresses_or_exit-Listens (pos 1_000_000) (codes "0.0.0.0") (pos 8080) (codes "8079-8081,8080")
      drops_repeats
