-- ===== src/Lib.antt =====
-- A model of certtool, which makes X.509 certificates, whole hierarchies of them from a spec or a
-- chain of widths, and the files that hold them.
--
-- A certificate is described by arguments (pkg/certtool/certtool.go, `Args`), from which a template
-- is made and signed, by its own key or by a parent's. A spec (pkg/certtool/spec.go,
-- `CertificateSpec`) is a tree of descriptions, read from YAML and validated, or built by
-- `ChainToSpec`. Generation walks the tree, makes the arguments of each certificate and signs it
-- with its parent.
--
-- The files and the code that they model:
--   Base       texts as lists of bytes, integers, results that may be errors, lists.
--   Failure    the errors of the program, a constructor for each message; the wording is left out.
--   Net        net.SplitHostPort, net.ParseIP, net.ParseCIDR, net.IP.String and net.IPNet.Contains, as
--              far as the program calls them. Addresses are numbers of 128 bits.
--   Host       `validateDNSName`, `validateDNSLabel`, `ValidateHostname`, `ValidateEmailAddress`,
--              `GetHostnames` and `subjectAltNames` of pkg/certtool/certtool.go.
--   Cert       the fields of x509.Certificate, and the name constraints: `dnsNamePermitted`,
--              `ipRangeWithin`, `ipPermitted`, `applyNameConstraints`, `inheritNameConstraints`.
--   Profile    `GetProfile` of pkg/certtool/profiles.go and `pfxFormat` of pkg/certtool/certtool.go.
--   Issue      `Args`, `fillDefaults`, `newCertificateTemplate`, `checkIssuer`, the choice of keys and
--              algorithms, `ReadKeyPair`, `GenerateKeyPair` and `CreateSelfSignedCertificate`.
--   Spec       `CertificateSpec`, `validateSpec`, the .pfx passwords of a tree, `caDepth`, `signsEmail`.
--   Chain      `ChainToSpec` and its helpers.
--   Files      internal/safefile/safefile.go, the private files of pkg/certtool/encrypt.go, and the plain
--              key pairs of pkg/certtool/certtool.go (`WriteKeyPair` and the like).
--   Generate   `GenerateFromSpecWithOptions`, `generateSpec`, `specToArgs`, `specFilename` and the
--              checks on files that exist already, and `writeSSHPublicKey`, of pkg/certtool/spec.go.
--   Scenario   pkg/certtool/scenario.go: `ScenarioSpec` and its checks, `scenarioHeader`, `shellQuote`,
--              `hostnameConstraints`.
--   Subject    `ParseName` of pkg/certtool/certtool.go.
--   Age        the P-256 recipients and identities of pkg/certtool/encrypt.go (`pivP256Recipient`,
--              `p256Identity`), and `ParseAgeRecipient`.
--   Yubikey    pkg/yubikey: which token is opened, its PIN and management key, slots and firmware, and
--              what the slots hold: `GenerateRoot`, `Issuer`, `signer`, `AgeIdentities`.
--   Command    internal/certtool/certtool.go: the values of the flags (`stringToKeyType`,
--              `splitHostnames`, `parseChain`), `validateModes`, `argsToSpec`, `certificateArgs`,
--              `yubiKeyConfig`, and `Run` with `runSpec`, `runChain`, `runExportSpec` and
--              `generateAndWriteKeyPair`; `validateEncryption` and `keyEncryption` of
--              internal/certtool/encrypt.go; `runScenario` and its checks of
--              internal/certtool/scenario.go. `Run` reads and checks everything first, which is
--              `job`, and writes at its end, which is `perform`.
--   Examples   concrete inputs.
--
-- A Go function that returns an error is a function into `Outcome`. One that changes what a pointer
-- refers to, as the functions on templates do, returns the changed record; the templates are not
-- shared, so nothing else sees the change. Loops are structural recursions on lists, trees or
-- widths, without a bound on their steps; only the printing of decimals has fuel, the number itself
-- plus one, which is more than its digits. A map that is filled in a loop is the list of its keys.
-- The files are a store, a function from paths, that steps take and return, also when they fail;
-- which system calls fail, and how far a write came, are parameters. Times and durations are numbers
-- of nanoseconds that may be negative, and do not overflow.
--
-- What other packages do is a parameter: mail.ParseAddress (`parse_address`), the generators of
-- keys (`KeySource`), PEM, ASN.1 and X.509 (`Encoding`, with the laws `EncodingLaws`), signing, the
-- clock and the serial numbers (`Crypto`, with the law `KeepsTemplate`), signature checks
-- (`Signatures`), time.ParseDuration and os.Getenv (`Environment`), text/template and yaml.v3
-- (`Templates`, `Program`), the age library (with the laws `Opens`) and the system calls (`Disk`), the primitives of P-256,
-- HKDF and ChaCha20-Poly1305 (`Primitives`, with the laws `PrimitiveLaws`), and what a card answers
-- (`Card`, `Piv`), which may leave anything in a slot when it fails. Case and white space are those
-- of ASCII, but in the comment of an SSH key, which is taken to be UTF-8. A name constraint's mask is a prefix, as net.ParseCIDR and the X.509 parser make it.
--
-- Not modelled: the text of messages, logging, the binding of the flags by cobra and viper, the YAML
-- format, the age format and its own recipients (`EncryptPrivateData` and `DecryptPrivateData` only
-- call them), the PIV protocol, the text of the scenarios' templates, the build without YubiKeys,
-- and directories and symbolic links.
pub mod Base
pub mod Failure
pub mod Host
pub mod Net
pub mod Chain
pub mod Spec
pub mod Profile
pub mod Cert
pub mod Issue
pub mod Examples
pub mod Files
pub mod Generate
pub mod Yubikey
pub mod Command
pub mod Scenario
pub mod Age
pub mod Subject
