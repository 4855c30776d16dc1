-- ===== src/Host.antt =====
-- Host names, DNS names and e-mail addresses: `hostWithoutPort`, `ValidateHostname`,
-- `ValidateEmailAddress`, `validateDNSName`, `validateDNSLabel`, `GetHostnames` and
-- `subjectAltNames` of pkg/certtool/certtool.go.
pub mod Dns
pub mod Valid
pub mod Names
