-- ===== src/Client/Session/Filters.antt =====
-- What `set_filters` puts on the stream.
use manka_shreds_sdk.Common.{ℕ, ◌≤◌, ◌≡◌, arith, List, [], ◌++◌, false, length}
use manka_shreds_sdk.Error.{ok}
use manka_shreds_sdk.Protocol.Codes.{uncompressed}
use manka_shreds_sdk.Protocol.Kinds
use manka_shreds_sdk.Protocol.Kinds.{frame_kind_to_byte}
use manka_shreds_sdk.Protocol.Header.{read_frame_header, max_frame_payload, write_frame}
use manka_shreds_sdk.Protocol.Header.RoundTrip.{read-write_frame}
use manka_shreds_sdk.Client.Wire.{write_all}
use manka_shreds_sdk.Client.Json.{NamedFilter, filters_json}
use manka_shreds_sdk.Client.Session.{Client, set_filters}

-- If no write fails and the filter document is within the protocol's limit, `set_filters`
-- succeeds and sends one frame whose header reads back as an uncompressed filter request of the
-- document's length, whatever follows it.
set_filters_lem :
    (self : Client) (filters : List NamedFilter)
    → self.stream.write_failures ≡ []
    → length (filters_json filters) ≤ max_frame_payload
    → (frame : List ℕ) × (set_filters self filters
        ≡ (ok tt, record self { stream = record self.stream { sent = self.stream.sent ++ frame } }))
      × ((rest : List ℕ)
          → read_frame_header (frame ++ rest)
            ≡ ok (record {
              len = length (filters_json filters);
              kind = Kinds.set_filter;
              raw_kind = frame_kind_to_byte Kinds.set_filter;
              compressed = false;
              codec = uncompressed;
              matched = record { bits = 0 };
              seq = 0;
            }))
unfolding set_filters write_all
set_filters_lem self filters fine small = (
  write_frame [] Kinds.set_filter 0 (filters_json filters),
  simp fine,
  λ rest. read-write_frame Kinds.set_filter 0 (filters_json filters) rest small (omega arith),
)
