-- ===== src/Content/Tests.antt =====
-- Runs of the ring buffer at concrete inputs.
use peercast_mi.Base.{◌≡◌, inl, refl, not, List, [], ◌∷◌, arith, drop_while, some, map, nat_eq}
use peercast_mi.Content.{ContentBuffer, Content, since, packets_after, pos_before, blank, collect}
use peercast_mi.Content.Window.{contents}
use peercast_mi.Content.Stream.{head, packet, apply_all, Update}
use peercast_mi.Content.Refine.{IsValid, view, update_all, update_all_refines}
use peercast_mi.Content.Delivery.{
  Arrival, arrive, arrived, packets_after-update_all, since-update_all, since_lem,
}

-- A ring of two slots, with a header of three bytes and one packet.
abbrev two_slots : ContentBuffer
two_slots = record {
  header = some (1 ∷ 2 ∷ 3 ∷ []);
  header_pos = 10;
  packets = record { pos = 13; payload = 4 ∷ 5 ∷ []; cont_flags = 0; timestamp = 100 } ∷ blank ∷ [];
  count = 1;
  signal = 1;
}

two_slots-IsValid : IsValid two_slots
two_slots-IsValid = inl (omega arith)

-- Two packets that arrive later and fill the ring anew.
abbrev news : List Arrival
news =
    record { now = 200; bytes = 6 ∷ []; pos = 15; flags = 0 }
    ∷ record { now = 300; bytes = 7 ∷ []; pos = 16; flags = 0 }
    ∷ []

abbrev first : Content
first = record { pos = 13; payload = 4 ∷ 5 ∷ []; cont_flags = 0; timestamp = 100 }

abbrev updates : List Update
updates = head (9 ∷ []) 20 ∷ packet 400 (8 ∷ []) 21 0 ∷ []

update_all_refines_example :
    (view (update_all two_slots updates) ≡ apply_all 2 (view two_slots) updates)
    × IsValid (update_all two_slots updates)
update_all_refines_example = update_all_refines updates two_slots two_slots-IsValid

packets_after-update_all_example :
    packets_after (update_all two_slots (map arrive news)) first ≡ map arrived news
unfolding collect pos_before
packets_after-update_all_example =
    packets_after-update_all two_slots first news two_slots-IsValid (refl, tt) (refl, (refl, tt))
      (omega arith)

since-update_all_example : since (update_all two_slots (map arrive news)) 15 ≡ map arrived news
unfolding collect pos_before
since-update_all_example =
    since-update_all two_slots 15 news two_slots-IsValid (refl, tt) (refl, (refl, tt)) (omega arith)

since_lem_example :
    since two_slots 13 ≡ drop_while (λ p. not (not (pos_before p.pos 13))) (contents two_slots)
since_lem_example = since_lem two_slots 13
