-- ===== src/PageBroker/Runway.antt =====
-- The runway that the broker asks for.
use pinyon.Prelude.{◌≡◌, refl}
use pinyon.TwoMath.{align_up_two, align_up_to_power, align_down_to_power, bit_width}
use pinyon.PageBroker.{required_runway, required_runway_in_pages}

-- 512 bytes of runway are asked for as 4096 pages, which are 16 MiB.
required_runway_lem : required_runway ≡ 512
unfolding required_runway align_up_to_power align_down_to_power bit_width
required_runway_lem = refl

required_runway_in_pages_lem : required_runway_in_pages ≡ 4096
unfolding required_runway_in_pages required_runway_lem align_up_two required_runway
    align_up_to_power align_down_to_power bit_width
required_runway_in_pages_lem = refl
