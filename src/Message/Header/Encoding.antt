-- ===== src/Message/Header/Encoding.antt =====
-- What a header is in bytes, in both versions, and what a header read from them has to carry.
use robotraconteurlite.Prelude.{ℕ, ◌≤◌, ◌<◌, ◌≡◌, ◌⊎◌, false, List, [], ◌∷◌, ◌++◌, length, joined}
use robotraconteurlite.Prelude.Magic.{rrac_magic}
use robotraconteurlite.Array.Numbers.{le_bytes}
use robotraconteurlite.Message.Numbers.Codec.{encoded_uint_x}
use robotraconteurlite.Message.Steps.{bytes_when}
use robotraconteurlite.Message.Strings.{nodeid_size}
use robotraconteurlite.Message.Strings.Laws.{encoded_prefix2, encoded_prefix4, Room, Received}
use robotraconteurlite.Message.Header.{
  MessageHeader, MessageConstHeader, flags_check, flag_routing_info, flag_endpoint_info,
  flag_priority, flag_meta_info, flag_string_table, flag_multiple_entries, flag_extended,
  flags_version2compat,
}
use robotraconteurlite.NodeId.{zero_nodeid}

module _ (h : MessageConstHeader) where
  unfoldable pub encoding2 : List (List ℕ)
  encoding2 =
      rrac_magic
      ∷ le_bytes 4 h.message_size
      ∷ le_bytes 2 h.message_version
      ∷ le_bytes 2 h.header_size
      ∷ h.sender_nodeid
      ∷ h.receiver_nodeid
      ∷ le_bytes 4 h.sender_endpoint
      ∷ le_bytes 4 h.receiver_endpoint
      ∷ encoded_prefix2 h.sender_nodename
      ∷ encoded_prefix2 h.receiver_nodename
      ∷ encoded_prefix2 h.metadata
      ∷ le_bytes 2 h.entry_count
      ∷ le_bytes 2 h.message_id
      ∷ le_bytes 2 h.message_res_id
      ∷ []

  unfoldable pub routing_bytes : List (List ℕ)
  routing_bytes =
      h.sender_nodeid
      ∷ h.receiver_nodeid
      ∷ encoded_prefix4 h.sender_nodename
      ∷ encoded_prefix4 h.receiver_nodename
      ∷ []

  unfoldable pub endpoint_bytes : List (List ℕ)
  endpoint_bytes = encoded_uint_x h.sender_endpoint ∷ encoded_uint_x h.receiver_endpoint ∷ []

  unfoldable pub meta_bytes : List (List ℕ)
  meta_bytes =
      encoded_prefix4 h.metadata ∷ le_bytes 2 h.message_id ∷ le_bytes 2 h.message_res_id ∷ []

  -- A writer's count always takes five bytes.
  unfoldable pub count_bytes : List (List ℕ)
  count_bytes = (le_bytes 1 254 ++ le_bytes 4 h.entry_count) ∷ []

  -- The header with the bytes `counted` of the number of entries.
  unfoldable pub encoding4_in : List (List ℕ) → List (List ℕ)
  encoding4_in counted =
      rrac_magic
      ∷ le_bytes 4 h.message_size
      ∷ le_bytes 2 h.message_version
      ∷ encoded_uint_x h.header_size
      ∷ le_bytes 1 h.message_flags
      ∷ bytes_when (flags_check h.message_flags flag_routing_info) routing_bytes
      ∷ bytes_when (flags_check h.message_flags flag_endpoint_info) endpoint_bytes
      ∷ bytes_when (flags_check h.message_flags flag_priority) (le_bytes 2 h.priority ∷ [])
      ∷ bytes_when (flags_check h.message_flags flag_meta_info) meta_bytes
      ∷ bytes_when (flags_check h.message_flags flag_multiple_entries) counted
      ∷ []

  -- The header as the writer makes it.
  abbrev pub encoding4 : List (List ℕ)
  encoding4 = encoding4_in count_bytes

  -- The number of entries in five bytes, as the writer makes it, or in the shortest form.
  abbrev pub IsCount : List (List ℕ) → Type 0
  IsCount counted = (counted ≡ count_bytes) ⊎ (counted ≡ encoded_uint_x h.entry_count ∷ [])

  -- The fields have the sizes of their C types, and a version-2 header no others than its own.
  pub record Fits : Type 0 where
    pub size_lt : h.message_size < 4294967296
    pub version_lt : h.message_version < 65536
    pub header_size_lt : h.header_size < 4294967296
    pub flags_lt : h.message_flags < 256
    pub sender_id : length h.sender_nodeid ≡ nodeid_size
    pub receiver_id : length h.receiver_nodeid ≡ nodeid_size
    pub sender_lt : h.sender_endpoint < 4294967296
    pub receiver_lt : h.receiver_endpoint < 4294967296
    pub priority_lt : h.priority < 65536
    pub sender_name : length h.sender_nodename < 4294967296
    pub receiver_name : length h.receiver_nodename < 4294967296
    pub meta : length h.metadata < 4294967296
    pub count_lt : h.entry_count < 4294967296
    pub id_lt : h.message_id < 65536
    pub res_id_lt : h.message_res_id < 65536

  -- A header of version 2 that bytes can carry.
  pub record Version2 : Type 0 where
    pub fits : Fits
    pub version : h.message_version ≡ 2
    pub size : h.header_size ≡ length (joined encoding2)
    pub size_16 : h.header_size < 65536
    pub flags : h.message_flags ≡ flags_version2compat
    pub priority : h.priority ≡ 0
    pub count_16 : h.entry_count < 65536

  -- A header of version 4: what its flags leave out has the value that a reader sets.
  pub record Version4In (counted : List (List ℕ)) : Type 0 where
    pub fits : Fits
    pub version : h.message_version ≡ 4
    pub size : h.header_size ≡ length (joined (encoding4_in counted))
    pub no_routing :
        flags_check h.message_flags flag_routing_info ≡ false
        → (h.sender_nodeid ≡ zero_nodeid)
          × (h.receiver_nodeid ≡ zero_nodeid)
          × (h.sender_nodename ≡ [])
          × (h.receiver_nodename ≡ [])
    pub no_endpoint :
        flags_check h.message_flags flag_endpoint_info ≡ false
        → (h.sender_endpoint ≡ 0) × (h.receiver_endpoint ≡ 0)
    pub no_priority : flags_check h.message_flags flag_priority ≡ false → h.priority ≡ 0
    pub no_meta :
        flags_check h.message_flags flag_meta_info ≡ false
        → (h.metadata ≡ []) × (h.message_id ≡ 0) × (h.message_res_id ≡ 0)
    pub no_table : flags_check h.message_flags flag_string_table ≡ false
    pub no_count : flags_check h.message_flags flag_multiple_entries ≡ false → h.entry_count ≡ 1
    pub no_extended : flags_check h.message_flags flag_extended ≡ false

  abbrev pub Version4 : Type 0
  Version4 = Version4In count_bytes

  -- The caller's header has room for what is read.
  pub record HasRoom (dest : MessageHeader) : Type 0 where
    pub sender_id : nodeid_size ≤ length dest.sender_nodeid
    pub receiver_id : nodeid_size ≤ length dest.receiver_nodeid
    pub sender : Room dest.sender_nodename (length h.sender_nodename)
    pub receiver : Room dest.receiver_nodename (length h.receiver_nodename)
    pub meta : Room dest.metadata (length h.metadata)

  -- The header `out` carries all that `h` says. Of a string without memory, that is its length.
  pub record Carries (out : MessageHeader) : Type 0 where
    pub size : out.message_size ≡ h.message_size
    pub version : out.message_version ≡ h.message_version
    pub header : out.header_size ≡ h.header_size
    pub flags : out.message_flags ≡ h.message_flags
    pub sender_id : out.sender_nodeid ≡ h.sender_nodeid
    pub receiver_id : out.receiver_nodeid ≡ h.receiver_nodeid
    pub sender_end : out.sender_endpoint ≡ h.sender_endpoint
    pub receiver_end : out.receiver_endpoint ≡ h.receiver_endpoint
    pub priority : out.priority ≡ h.priority
    pub sender : Received h.sender_nodename out.sender_nodename
    pub receiver : Received h.receiver_nodename out.receiver_nodename
    pub meta : Received h.metadata out.metadata
    pub count : out.entry_count ≡ h.entry_count
    pub id : out.message_id ≡ h.message_id
    pub res_id : out.message_res_id ≡ h.message_res_id
