-- ===== src/LoadBalancer/SvcPort.antt =====
-- wao-loadbalancer/pkg/proxy/nftables/wao.go: decodeSvcPortNameString.
use waok8s.Prelude.{◌≡◌, refl, List, [], ◌∷◌, ◌++◌, Text, split}
use waok8s.Client.Keys.{Lacks, split_after-last, split_after-first}

-- The namespace, the name of the Service and the name of the port.
pub record SvcPortName : Type 0 where
  pub namespace : Text
  pub svc_name : Text
  pub port_name : Text

-- The part after the first separator.
unfoldable pub decode_svc_port : Text → List Text → SvcPortName
decode_svc_port ns (svc ∷ port ∷ []) = record { namespace = ns; svc_name = svc; port_name = port }
decode_svc_port ns (svc ∷ more) = record { namespace = ns; svc_name = svc; port_name = [] }
decode_svc_port ns [] = record { namespace = ns; svc_name = []; port_name = [] }

unfoldable pub decode_parts : List Text → SvcPortName
unfolding decode_svc_port split
decode_parts (ns ∷ rest ∷ []) = decode_svc_port ns (split b':' rest)
decode_parts _ = record { namespace = []; svc_name = []; port_name = [] }

-- `decodeSvcPortNameString`
unfoldable pub decode_svc_port_name_string : Text → SvcPortName
unfolding decode_parts split
decode_svc_port_name_string s = decode_parts (split b'/' s)

-- A name that `ServicePortName.String` builds with a port is decoded into its parts, if the namespace
-- and the rest hold no `/`, and the names of the Service and of the port no `:`.
pub decode-named_port :
    (ns svc port : Text)
    → Lacks b'/' ns
    → Lacks b'/' (svc ++ b':' ∷ port)
    → Lacks b':' svc
    → Lacks b':' port
    → decode_svc_port_name_string (ns ++ b'/' ∷ (svc ++ b':' ∷ port))
      ≡ record { namespace = ns; svc_name = svc; port_name = port }
unfolding decode_svc_port_name_string decode_parts decode_svc_port split
decode-named_port ns svc port a b c d =
    rw
      (
        split_after-first b'/' [] ns (svc ++ b':' ∷ port) a,
        split_after-last b'/' [] (svc ++ b':' ∷ port) b,
        split_after-first b':' [] svc port c,
        split_after-last b':' [] port d,
      )
      refl

-- A name that it builds without a port is decoded with the empty port, if the namespace and the name
-- of the Service hold no `/`, and the latter no `:`.
decode-no_port :
    (ns svc : Text)
    → Lacks b'/' ns
    → Lacks b'/' svc
    → Lacks b':' svc
    → decode_svc_port_name_string (ns ++ b'/' ∷ svc)
      ≡ record { namespace = ns; svc_name = svc; port_name = [] }
unfolding decode_svc_port_name_string decode_parts decode_svc_port split
decode-no_port ns svc a b c =
    rw
      (
        split_after-first b'/' [] ns svc a,
        split_after-last b'/' [] svc b,
        split_after-last b':' [] svc c,
      )
      refl
