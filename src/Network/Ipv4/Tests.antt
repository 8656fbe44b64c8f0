-- ===== src/Network/Ipv4/Tests.antt =====
-- is_valid_ipv4 on texts.
use barq_native.Prelude.{◌≡◌, refl, ◌↔◌, true, false}
use barq_native.Prelude.Bytes.{codes}
use barq_native.Network.Ipv4.{segments, valid_segment, all_valid, is_valid_ipv4}
use barq_native.Network.Ipv4.Recognition.{IsAddress, is_valid_ipv4-IsAddress}

takes_localhost : is_valid_ipv4 (codes "127.0.0.1") ≡ true
unfolding is_valid_ipv4 segments all_valid valid_segment
takes_localhost = refl

takes_last_dot : is_valid_ipv4 (codes "127.0.0.1.") ≡ true
unfolding is_valid_ipv4 segments all_valid valid_segment
takes_last_dot = refl

refuses_256 : is_valid_ipv4 (codes "127.0.0.256") ≡ false
unfolding is_valid_ipv4 segments all_valid valid_segment
refuses_256 = refl

is_valid_ipv4-IsAddress_example :
    (is_valid_ipv4 (codes "10.0.0.7.") ≡ true) ↔ IsAddress (codes "10.0.0.7.")
is_valid_ipv4-IsAddress_example = is_valid_ipv4-IsAddress (codes "10.0.0.7.")
