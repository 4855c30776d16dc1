-- ===== src/Failure.antt =====
-- The errors of the program, a constructor for each message. The arguments are those that callers
-- or proofs tell apart; the wording is left out.
use certtool.Base.{ℕ, ℤ}
use certtool.Base.Text.{Text}

pub data Failure : Type 0 where
  -- validateDNSName and validateDNSLabel
  name_empty name_too_long wildcard_too_short : Failure
  label_empty label_too_long label_wildcard label_hyphen : Failure
  label_character : ℕ → Failure
  -- ValidateHostname and ValidateEmailAddress
  bad_hostname : Text → Failure → Failure
  email_not_bare email_bad_domain : Text → Failure
  -- GetProfile and pfxFormat
  unknown_target unknown_pfx_format : Text → Failure
  -- checkIssuer and the name constraints
  parent_not_ca parent_cannot_sign parent_expired parent_not_yet_valid path_length_zero : Failure
  name_not_permitted domain_not_permitted : Text → Failure
  address_not_permitted : ℕ → Failure
  range_not_permitted : Failure
  usage_not_permitted : Failure
  -- keys
  bad_algorithm : Text → Failure
  rsa_too_short signer_unknown : Failure
  ecdsa_without_size ecdsa_224 bad_key_type : Failure
  -- templates and signing
  negative_path_length : ℤ → Failure
  bad_permitted_domain : Text → Failure → Failure
  code_signing_email : Failure
  two_issuers issuer_incomplete certificate_without_key key_without_certificate : Failure
  no_pem_data pem_remainder key_encrypted_with_age key_encrypted key_not_encodable : Failure
  pem_type_unsupported : Text → Failure
  parent_cannot_be_read parent_key_cannot_sign : Failure
  library_failure : Failure
  -- specs
  no_certificates no_common_name : Failure
  children_without_ca bad_filename pfx_on_code_signing two_passwords : Text → Failure
  email_on_ca ssh_on_ca constraints_on_leaf bad_max_path_len : Text → Failure
  in_spec : Text → Failure → Failure
  bad_ip_range : Text → Failure
  mixed_code_signing : Text → Text → Failure
  -- chains
  no_widths : Failure
  width_too_small : ℕ → Failure
  repeated_name : Text → Failure
  -- generation
  is_directory write_failed no_pfx_data cannot_read no_age_identity no_key_pair_files : Failure
  both_forms_exist cannot_remove : Failure
  filename_collision : Text → Text → Text → Failure
  password_not_set : Text → Failure
  -- files that exist already
  existing_without_key existing_without_certificate existing_cannot_sign existing_other_key
        existing_other_name :
      Failure
  existing_other_ca existing_expired existing_without_email existing_not_self_signed
        existing_not_signed :
      Failure
  existing_other_domains existing_other_ranges existing_other_path_len ssh_key_failed : Failure
  existing_unreadable existing_unchecked : Failure → Failure
  -- YubiKeys
  bad_touch_policy bad_slot : Text → Failure
  unsupported_key_type old_firmware pin_rejected_before pin_missing pin_length card_failure
        key_mismatch :
      Failure
  management_key_not_hex management_key_length : Failure
  card_unreadable serial_not_connected no_yubikey several_yubikeys card_not_opened : Failure
  -- scenarios
  control_character : Text → Text → Failure
  no_scenario no_organization : Failure
  unknown_scenario scenario_twice needs_hostnames needs_clients needs_self_signed : Text → Failure
  scenario_not_rendered invalid_scenario_spec : Failure → Failure
  pfx_without_password not_a_controller : Text → Failure
  scenario_files_collide : Text → Text → Text → Failure
  scenario_without_template scenario_not_described scenario_without_summary scenario_not_a_list :
      Text → Failure
  slot_occupied slot_unreadable key_not_generated key_unusable key_cannot_sign : Failure
  root_not_signed : Failure → Failure
  root_not_stored slot_empty certificate_unreadable no_age_key : Failure
  issuer_not_ca issuer_cannot_sign issuer_expired issuer_not_yet_valid : Failure
  -- distinguished names
  attribute_parts unknown_attribute : Text → Failure
  -- key pairs in files
  no_certificate_path no_key_path : Failure
