-- ===== src/Backends/Interfaces.antt =====
-- src/backends/shared/interfaces.ts: one entry of a device's interfaces.
-- The ten averages are the fields that `iface[key] = value` sets: a list of keys and values.
use ftd_metrics_exporter.Prelude.{String, List, [], ◌∷◌, ◌++◌, Option, none, some}
use ftd_metrics_exporter.Prelude.Text.{concat}
use ftd_metrics_exporter.Prelude.Json.{Json, obj, Number, Fields}
use ftd_metrics_exporter.Backends.Fields.{
  FieldRead, ok, malformed, read_optional_number, read_optional_string, read_required_string,
}
use ftd_metrics_exporter.Backends.Groups.{ParseError, parse_error}

pub record InterfaceStatusFieldNames : Type 0 where
  pub link_status : String
  pub operational_status : String

abbrev pub scc_interface_status_fields : InterfaceStatusFieldNames
scc_interface_status_fields = record {
  link_status = "linkStatus";
  operational_status = "operationalStatus";
}

abbrev pub fmc_interface_status_fields : InterfaceStatusFieldNames
fmc_interface_status_fields = record {
  link_status = "currentLinkStatus";
  operational_status = "currentOperationalStatus";
}

pub record InterfaceStats : Type 0 where
  pub interface : String
  pub interface_name : String
  pub interface_type : Option String
  pub duplex_mode : Option String
  pub link_status : Option String
  pub operational_status : Option String
  pub averages : List (String × Number)

abbrev pub numeric_fields : List String
numeric_fields =
    "inputBytesAvg" ∷ "outputBytesAvg" ∷ "inputPacketSizeAvg" ∷ "outputPacketSizeAvg"
    ∷ "inputErrorsAvg" ∷ "outputErrorsAvg" ∷ "dropPacketsAvg" ∷ "bufferOverrunsAvg"
    ∷ "bufferUnderrunsAvg" ∷ "l2DecodeDropsAvg" ∷ []

pub record MapInterfaceResult : Type 0 where
  pub interface : Option InterfaceStats
  pub parse_errors : List ParseError

abbrev pub value_of : FieldRead String → Option String
value_of (ok value) = value
value_of malformed = none

abbrev pub name_or : String → Option String → String
name_or default none = default
name_or default (some s) = s

module _ (device_uid : String) where
  abbrev pub interface_error : (message : String) → ParseError
  interface_error message = parse_error device_uid "interface" message

  -- The error of a text field that is no string.
  abbrev pub text_error : (key hardware_id : String) → FieldRead String → List ParseError
  text_error key hardware_id (ok value) = []
  text_error key hardware_id malformed =
      interface_error (concat (key ∷ " on " ∷ hardware_id ∷ " is not a string" ∷ [])) ∷ []

  -- What a numeric field adds to the averages, and its error.
  abbrev pub keep_number :
      (hardware_id key : String)
      → FieldRead Number
      → List (String × Number) × List ParseError
      → List (String × Number) × List ParseError
  keep_number hardware_id key malformed (averages, errors) = (
    averages,
    interface_error (
          concat (
            "interface entry " ∷ hardware_id ∷ " field \"" ∷ key ∷ "\" is not a finite number"
            ∷ []))
        ∷ errors,
  )
  keep_number hardware_id key (ok none) (averages, errors) = (averages, errors)
  keep_number hardware_id key (ok (some n)) (averages, errors) = ((key, n) ∷ averages, errors)

  -- The loop over NUMERIC_FIELDS.
  unfoldable pub read_numbers :
      Fields
      → (hardware_id : String) → (keys : List String) → List (String × Number) × List ParseError
  read_numbers raw hardware_id [] = ([], [])
  read_numbers raw hardware_id (key ∷ keys) =
      keep_number hardware_id key (read_optional_number raw key) (read_numbers raw hardware_id keys)

  unfoldable pub interface_of :
      Fields → InterfaceStatusFieldNames → (hardware_id : String) → MapInterfaceResult
  interface_of raw status_fields hardware_id =
      let name = read_optional_string raw "interfaceName" in
      let type = read_optional_string raw "interfaceType" in
      let duplex = read_optional_string raw "duplexMode" in
      let link = read_optional_string raw status_fields.link_status in
      let operational = read_optional_string raw status_fields.operational_status in
      let numbers = read_numbers raw hardware_id numeric_fields in
      record {
        interface = some (record {
          interface = hardware_id;
          interface_name = name_or hardware_id (value_of name);
          interface_type = value_of type;
          duplex_mode = value_of duplex;
          link_status = value_of link;
          operational_status = value_of operational;
          averages = numbers.0;
        });
        parse_errors =
            text_error "interfaceName" hardware_id name
            ++ (text_error "interfaceType" hardware_id type
                ++ (text_error "duplexMode" hardware_id duplex
                    ++ (text_error status_fields.link_status hardware_id link
                        ++ (text_error status_fields.operational_status hardware_id operational
                            ++ numbers.1))));
      }

  abbrev pub with_hardware_id :
      Fields → InterfaceStatusFieldNames → Option String → MapInterfaceResult
  with_hardware_id raw status_fields none = record {
    interface = none;
    parse_errors =
        interface_error "interface entry missing required \"interface\" (hardware id) field" ∷ [];
  }
  with_hardware_id raw status_fields (some hardware_id) = interface_of raw status_fields hardware_id

  unfoldable pub map_interface_entry : Json → InterfaceStatusFieldNames → MapInterfaceResult
  map_interface_entry (obj raw) status_fields =
      with_hardware_id raw status_fields (read_required_string raw "interface")
  map_interface_entry _ status_fields = record {
    interface = none;
    parse_errors = interface_error "interface entry is not an object" ∷ [];
  }
