-- ===== src/Parts/Network.antt =====
-- include/parts/network.hpp: `NetworkPublisherMqtt`, a part that is not written yet: its `update` holds two
-- comments, and its `m_output` stays the message that the constructor made.
use donkeycar_gt.Prelude.{Bool, Option, some, if◌then◌else◌}

pub record NetworkPublisherMqtt (Message : Type 0) : Type 0 where
  pub m_output : Message
  pub m_input : Option Message

-- The constructor, for a message as `std::make_shared<MessageT>()` makes it.
pub new_publisher : {Message : Type 0} → Message → NetworkPublisherMqtt Message
new_publisher message = record { m_output = message; m_input = some message }

-- `update`
abbrev pub publish :
    {Message : Type 0} → NetworkPublisherMqtt Message → NetworkPublisherMqtt Message
publish n = n

-- `run`, with `m_threaded`
pub publisher_run :
    {Message : Type 0}
    → Bool
    → Option Message
    → NetworkPublisherMqtt Message
    → Option Message × NetworkPublisherMqtt Message
publisher_run threaded input n =
    let given = record n { m_input = input } in
    if threaded
    then (some given.m_output, given)
    else (let done = publish given in (some done.m_output, done))
