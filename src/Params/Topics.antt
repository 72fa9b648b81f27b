-- ===== src/Params/Topics.antt =====
-- The states and periods of the topics in project/elec/module/src/ModParam.c.
use linux_comon.Prelude.{
  ℕ, ◌<◌, ◌≤◌, ◌≡◌, ◌≢◌, refl, sym, true, false, leb, get_elem?-set_self, get_elem?-set_ne, arith,
  ◌%◌, ◌^◌,
}
use linux_comon.Prelude.Int.{pos, minus_one}
use linux_comon.Params.State.{
  MqttTopic, ModParams, mqtt_topic_max, set_topic_state, get_state, get_period, int8,
}
use linux_comon.Params.Setters.{WellFormed}

-- For a topic that exists `ModParamSetTopicState` returns 0, the two getters return what it has
-- stored, the state cut to eight bits and read as signed, and no other topic changes. For any other
-- number it returns -1 and changes nothing, and the getters return -1 and 0.
pub topic_state_lem :
    {g : ModParams} (id other beyond period state : ℕ)
    → WellFormed g
    → id < mqtt_topic_max
    → other ≢ id
    → mqtt_topic_max ≤ beyond
    → let r = set_topic_state id period state g in
      (r.0 ≡ pos 0)
      × (get_state id r.1 ≡ int8 (state % 2 ^ 8))
      × (get_period id r.1 ≡ period)
      × (get_state other r.1 ≡ get_state other g)
      × (get_period other r.1 ≡ get_period other g)
      × (set_topic_state beyond period state g ≡ (minus_one, g))
      × (get_state beyond g ≡ minus_one)
      × (get_period beyond g ≡ 0)
unfolding set_topic_state get_state get_period
topic_state_lem {g} id other beyond period state v h ne out =
    let new : MqttTopic = record { state = state % 2 ^ 8; period = period } in
    let there : leb mqtt_topic_max id ≡ false = ground arith in
    let beyond_all : leb mqtt_topic_max beyond ≡ true = ground arith in
    let stored = get_elem?-set_self g.topic id new (omega (arith, v.topics)) in
    let kept = get_elem?-set_ne g.topic new (λ e. ne (sym e)) in
    (
      rw there refl,
      rw (there, stored) refl,
      rw (there, stored) refl,
      rw (there, kept) refl,
      rw (there, kept) refl,
      rw beyond_all refl,
      rw beyond_all refl,
      rw beyond_all refl,
    )
